-- ===== src/Modes/Concepts/Uses.antt =====
-- The search for a column in a statement.
use civic_soda_quack.Prelude.{
  ℕ, zero, suc, ◌≡◌, ◌<◌, ◌↔◌, refl, Bool, true, ◌&&◌, Option, none, some, List, [], ◌∷◌, length,
  all, arith, Bool-cases, inl, inr, String,
}
use civic_soda_quack.Personal.{bytes}
use civic_soda_quack.Personal.Search.{
  Hit, index, after_word, first_byte, last_byte, search, search_from,
}
use civic_soda_quack.Personal.Search.Occurs.{Occurs}
use civic_soda_quack.Personal.Search.Exact.{Inside, index-some, search_iff}
use civic_soda_quack.Modes.{Strings}
use civic_soda_quack.Modes.Concepts.{is_ident, no_ident_at, uses_from, uses_column}

-- No identifier byte stands before or behind.
abbrev pub whole_word : Hit
whole_word before post = no_ident_at before && no_ident_at (first_byte post)

whole_word_inside : Inside is_ident whole_word
whole_word_inside b post h = rw h refl

index-nil : (s : List ℕ) → index [] s ≡ some ([], s)
unfolding index after_word
index-nil [] = refl
index-nil (c ∷ s) = refl

module _ (w : ℕ) (word : List ℕ) (hw : all is_ident (w ∷ word) ≡ true) where
  abbrev Later : ℕ → Type 0
  Later fuel =
      (before : Option ℕ) (s : List ℕ)
      → length s < fuel
      → uses_from fuel (w ∷ word) before s ≡ some (search_from fuel whole_word (w ∷ word) before s)

  uses_step :
      (fuel : ℕ) (before : Option ℕ) (s : List ℕ) (o : Option (List ℕ × List ℕ))
      → index (w ∷ word) s ≡ o
      → length s < suc fuel
      → Later fuel
      → uses_from (suc fuel) (w ∷ word) before s
        ≡ some (search_from (suc fuel) whole_word (w ∷ word) before s)
  unfolding uses_from search_from
  uses_step fuel before s none e h later = rw (uses_from, search_from, e) refl
  uses_step fuel before s (some (pre, post)) e h later =
      let shorter =
        (index-some is_ident whole_word whole_word_inside w word hw s pre post before e).1 in
      rw (uses_from, search_from, e)
        (elim (Bool-cases (whole_word (last_byte before pre) post)) [
          | inl y ↦ rw y refl
          | inr z ↦ rw z (later (last_byte (some w) word) post (omega arith))
        ])

  uses_from_lem : (fuel : ℕ) → Later fuel
  uses_from_lem zero before s h = absurd (omega arith)
  uses_from_lem (suc fuel) before s h =
      uses_step fuel before s (index (w ∷ word) s) refl h (uses_from_lem fuel)

  -- The loop ends with the answer to whether the word occurs on its own.
  pub uses_from-Answers :
      (s : List ℕ)
      → (b : Bool) × (uses_from (suc (length s)) (w ∷ word) none s ≡ some b)
        × ((b ≡ true) ↔ Occurs whole_word (w ∷ word) s)
  unfolding search
  uses_from-Answers s = (
    search whole_word (w ∷ word) s,
    uses_from_lem (suc (length s)) none s (omega arith),
    search_iff is_ident whole_word whole_word_inside w word s hw,
  )

module _ (st : Strings) where
  -- For a non-empty column name of identifier bytes, the search for a column in a statement ends,
  -- on as many rounds as the statement is long and one, and says yes exactly if the name occurs in
  -- the lowered text with no identifier byte beside it.
  pub uses_column-Answers :
      (sql col : String) (w : ℕ) (word : List ℕ)
      → bytes (st.lower col) ≡ w ∷ word
      → all is_ident (w ∷ word) ≡ true
      → (b : Bool) × (uses_column st sql col ≡ some b)
        × ((b ≡ true) ↔ Occurs whole_word (w ∷ word) (bytes (st.lower sql)))
  unfolding uses_column
  uses_column-Answers sql col w word e hw =
      rw e (uses_from-Answers w word hw (bytes (st.lower sql)))

-- An empty column is looked for without an end in a text that starts with an identifier byte.
pub uses_from-nil :
    (fuel c : ℕ) (s : List ℕ) → is_ident c ≡ true → uses_from fuel [] none (c ∷ s) ≡ none
unfolding uses_from
uses_from-nil zero c s h = refl
uses_from-nil (suc fuel) c s h = rw (uses_from, index-nil (c ∷ s), h) (uses_from-nil fuel c s h)
