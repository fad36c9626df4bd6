-- ===== src/Investigate/Measure/Windows.antt =====
-- How a series falls apart into its latest point, a window and what lies before.
use civic_soda_quack.Prelude.{
  suc, zero, ℕ, ◌-◌, ◌≡◌, ◌≤◌, ◌⊎◌, inl, inr, refl, ap, List, [], ◌∷◌, ◌++◌, length, take, drop,
  length-drop, length-take, arith,
}
use civic_soda_quack.Investigate.{Point}
use civic_soda_quack.Investigate.Measure.{init, last_of, in_window}

take-append-drop : {A : Type 0} (n : ℕ) (xs : List A) → take n xs ++ drop n xs ≡ xs
take-append-drop zero xs = refl
take-append-drop (suc n) [] = refl
take-append-drop (suc n) (x ∷ xs) = ap (λ r. x ∷ r) (take-append-drop n xs)

empty-length : {A : Type 0} (xs : List A) → length xs ≡ 0 → xs ≡ []
empty-length [] h = refl
empty-length (x ∷ xs) h = absurd (omega (arith, h))

module _ {F : Type 0} where
  pub init-append-last_of :
      (p : Point F) (ps : List (Point F)) → init p ps ++ last_of p ps ∷ [] ≡ p ∷ ps
  unfolding init last_of
  init-append-last_of p [] = refl
  init-append-last_of p (q ∷ qs) = ap (λ r. p ∷ r) (init-append-last_of q qs)

  -- A window of three points, or of all where there are no more.
  abbrev pub IsWindow : List (Point F) → List (Point F) → Type 0
  IsWindow earlier w = (length w ≡ 3) ⊎ ((earlier ≡ []) × (length w ≤ 3))

  -- The points before the window.
  pub before_window : List (Point F) → List (Point F)
  before_window ps = take (length ps - 3) ps

  pub before_window-append : (ps : List (Point F)) → before_window ps ++ in_window ps ≡ ps
  unfolding before_window in_window
  before_window-append ps = take-append-drop (length ps - 3) ps

  pub in_window-IsWindow : (ps : List (Point F)) → IsWindow (before_window ps) (in_window ps)
  unfolding before_window in_window
  in_window-IsWindow ps = elim (le_cases 3 (length ps)) [
    | inl h ↦ inl (omega (arith, h, length-drop (length ps - 3) ps))
    | inr h ↦ inr (
      empty-length (take (length ps - 3) ps) (omega (arith, h, length-take (length ps - 3) ps)),
      omega (arith, h, length-drop (length ps - 3) ps),
    )
  ]
    where
      le_cases : (a b : ℕ) → (a ≤ b) ⊎ (b ≤ a)
      le_cases zero b = inl (omega arith)
      le_cases (suc a) zero = inr (omega arith)
      le_cases (suc a) (suc b) = elim (le_cases a b) [
        | inl h ↦ inl (omega (arith, h))
        | inr h ↦ inr (omega (arith, h))
      ]
