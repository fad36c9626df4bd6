-- ===== src/Personal/Search/Absent.antt =====
-- When `findToken` and `findCall` find none of the words.
use civic_soda_quack.Prelude.{
  ℕ, arith, ◌≡◌, refl, ◌↔◌, inl, inr, Bool, true, false, none, List, [], ◌∷◌, all, All, Bool-cases,
}
use civic_soda_quack.Personal.Search.{
  is_ident_byte, Hit, word_boundary, is_call, find_first, find_token, find_call, contains_word,
  calls,
}
use civic_soda_quack.Personal.Search.Occurs.{Occurs}
use civic_soda_quack.Personal.Search.Exact.{contains_word_iff, calls_iff}

-- A word that the searches are exact for.
abbrev pub is_word : List ℕ → Bool
is_word [] = false
is_word (c ∷ w) = all is_ident_byte (c ∷ w)

not_found : {P : Type 0} (b : Bool) → (b ≡ true ↔ P) → (b ≡ false ↔ (¬ P))
not_found true (there, back) = (λ h. cc, λ n. absurd (n (there refl)))
not_found false (there, back) = (λ h. λ p. cc (back p), λ n. refl)

contains_word_none :
    (s w : List ℕ) → is_word w ≡ true → (contains_word s w ≡ false) ↔ (¬ Occurs word_boundary w s)
contains_word_none s [] h = cc
contains_word_none s (c ∷ w) h = not_found (contains_word s (c ∷ w)) (contains_word_iff c w s h)

calls_none : (s f : List ℕ) → is_word f ≡ true → (calls s f ≡ false) ↔ (¬ Occurs is_call f s)
calls_none s [] h = cc
calls_none s (c ∷ f) h = not_found (calls s (c ∷ f)) (calls_iff c f s h)

module _ (p : List ℕ → Bool) (hit : Hit) (s : List ℕ) where
  abbrev Exactly : Type 0
  Exactly = (w : List ℕ) → is_word w ≡ true → (p w ≡ false) ↔ (¬ Occurs hit w s)

  find_first-none :
      Exactly
      → (ws : List (List ℕ)) → all is_word ws ≡ true
      → (find_first p ws ≡ none) ↔ All (λ w. ¬ Occurs hit w s) ws
  unfolding find_first
  find_first-none exactly [] h = (λ e. tt, λ a. refl)
  find_first-none exactly (w ∷ ws) h =
      let (here, back) = exactly w (ground arith) in
      let (there, again) = find_first-none exactly ws (ground arith) in
      elim (Bool-cases (p w)) [
        | inl y ↦ rw y (λ e. cc, λ a. cc (back a.0))
        | inr n ↦ rw n (λ e. (here n, there e), λ a. again a.1)
      ]

pub find_token-none :
    (s : List ℕ) (ws : List (List ℕ))
    → all is_word ws ≡ true
    → (find_token s ws ≡ none) ↔ All (λ w. ¬ Occurs word_boundary w s) ws
unfolding find_token
find_token-none s ws h =
    find_first-none (contains_word s) word_boundary s (contains_word_none s) ws h

pub find_call-none :
    (s : List ℕ) (fs : List (List ℕ))
    → all is_word fs ≡ true
    → (find_call s fs ≡ none) ↔ All (λ f. ¬ Occurs is_call f s) fs
unfolding find_call
find_call-none s fs h = find_first-none (calls s) is_call s (calls_none s) fs h
