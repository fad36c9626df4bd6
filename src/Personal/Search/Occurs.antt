-- ===== src/Personal/Search/Occurs.antt =====
-- What an occurrence of a word is, as a split of the text and position by position.
use civic_soda_quack.Prelude.{
  ℕ, ◌≡◌, refl, ap, ◌⊎◌, inl, inr, Bool, true, false, ◌||◌, Option, none, some, List, [], ◌∷◌, ◌++◌,
  arith,
}
use civic_soda_quack.Personal.Search.{last_byte, after_word, Hit}

-- An occurrence of the word that counts, by what stands before and behind it.
abbrev pub OccursBehind : Hit → List ℕ → Option ℕ → List ℕ → Type 0
OccursBehind hit word before s =
    (pre : List ℕ) × (post : List ℕ) × (s ≡ pre ++ (word ++ post))
    × (hit (last_byte before pre) post ≡ true)

abbrev pub Occurs : Hit → List ℕ → List ℕ → Type 0
Occurs hit word s = OccursBehind hit word none s

-- The same, position by position.
abbrev pub accepted : Hit → Option ℕ → Option (List ℕ) → Bool
accepted hit before none = false
accepted hit before (some post) = hit before post

unfoldable pub occurs : Hit → List ℕ → Option ℕ → List ℕ → Bool
occurs hit word before [] = accepted hit before (after_word word [])
occurs hit word before (c ∷ s) =
    accepted hit before (after_word word (c ∷ s)) || occurs hit word (some c) s

pub after_word-append : (word post : List ℕ) → after_word word (word ++ post) ≡ some post
unfolding after_word
after_word-append [] post = refl
after_word-append (w ∷ word) post = ground (arith, after_word-append word post)

pub after_word-some : (word s post : List ℕ) → after_word word s ≡ some post → s ≡ word ++ post
unfolding after_word
after_word-some [] s post h = cc
after_word-some (w ∷ word) [] post h = cc
after_word-some (w ∷ word) (c ∷ s) post h = ground (arith, after_word-some word s post)

or_true : (b c : Bool) → (b || c) ≡ true → (b ≡ true) ⊎ (c ≡ true)
or_true true c h = inl refl
or_true false c h = inr h

or_right : (b : Bool) → (b || true) ≡ true
or_right true = refl
or_right false = refl

module _ (hit : Hit) where
  accepted_split :
      (word s : List ℕ) (before : Option ℕ) (o : Option (List ℕ))
      → after_word word s ≡ o
      → accepted hit before o ≡ true
      → OccursBehind hit word before s
  accepted_split word s before none e h = cc
  accepted_split word s before (some post) e h = ([], post, after_word-some word s post e, h)

  accepted_sound :
      (word s : List ℕ) (before : Option ℕ)
      → accepted hit before (after_word word s) ≡ true
      → OccursBehind hit word before s
  accepted_sound word s before h = accepted_split word s before (after_word word s) refl h

  pub occurs_sound :
      (word s : List ℕ) (before : Option ℕ)
      → occurs hit word before s ≡ true
      → OccursBehind hit word before s
  unfolding occurs
  occurs_sound word [] before h = accepted_sound word [] before h
  occurs_sound word (c ∷ s) before h =
      elim (or_true (accepted hit before (after_word word (c ∷ s))) (occurs hit word (some c) s)
        h) [
          | inl e ↦ accepted_sound word (c ∷ s) before e
          | inr e ↦
              let (pre, post, split, counts) = occurs_sound word s (some c) e in
              (c ∷ pre, post, ap (λ s. c ∷ s) split, counts)
        ]

  occurs_here :
      (word s : List ℕ) (before : Option ℕ)
      → accepted hit before (after_word word s) ≡ true
      → occurs hit word before s ≡ true
  unfolding occurs
  occurs_here word [] before h = h
  occurs_here word (c ∷ s) before h = rw h refl

  pub occurs_complete :
      (word : List ℕ) (before : Option ℕ) (pre post : List ℕ)
      → hit (last_byte before pre) post ≡ true
      → occurs hit word before (pre ++ (word ++ post)) ≡ true
  unfolding occurs
  occurs_complete word before [] post h =
      occurs_here word (word ++ post) before (rw (after_word-append word post) h)
  occurs_complete word before (c ∷ pre) post h =
      rw (occurs_complete word (some c) pre post h)
        (or_right (accepted hit before (after_word word (c ∷ (pre ++ (word ++ post))))))
