-- ===== src/Prelude/Sorts/Places.antt =====
-- Sorting one more element in front of a sorted list.
use mathlib.Core.Path.{◌≡◌, refl, sym, ap, ◌∙◌}
use mathlib.Core.Logic.{inl, inr}
use mathlib.Core.Bool.{Bool, true, false}
use mathlib.Core.List.{List, [], ◌∷◌, ◌++◌, append_assoc, append-nil}
use Prim.Native.Nat.{ℕ, zero, suc}
use civic_soda_quack.Prelude.Tests.{if◌then◌else◌, Bool-cases}
use civic_soda_quack.Prelude.Lists.{All, All-imp, All-append, take}
use civic_soda_quack.Prelude.Sorts.{insert, sort_from, stable_sort, IsFirst, IsSorted, IsOrder}

module _ {A : Type 0} (less : A → A → Bool) where
  -- An element in front of the first one that is not less.
  unfoldable pub place : A → List A → List A
  place e [] = e ∷ []
  place e (y ∷ ys) = let rest = place e ys in if less y e then y ∷ rest else e ∷ y ∷ ys

  -- Not less than anything there.
  abbrev IsLast : List A → A → Type 0
  IsLast xs y = All (λ x. less y x ≡ false) xs

  insert-behind :
      (y : A) (pre post : List A)
      → IsLast pre y
      → insert less y (pre ++ post) ≡ pre ++ insert less y post
  unfolding insert
  insert-behind y [] post h = refl
  insert-behind y (x ∷ pre) post h = rw h.0 (ap (λ r. x ∷ r) (insert-behind y pre post h.1))

  insert-last : (y : A) (xs : List A) → IsLast xs y → insert less y xs ≡ xs ++ y ∷ []
  unfolding insert
  insert-last y [] h = refl
  insert-last y (x ∷ xs) h = rw h.0 (ap (λ r. x ∷ r) (insert-last y xs h.1))

  -- Every element of the second list may stand behind the first.
  abbrev AreLast : List A → List A → Type 0
  AreLast xs ys = All (IsLast xs) ys

  AreLast-nil : (ys : List A) → AreLast [] ys
  AreLast-nil [] = tt
  AreLast-nil (y ∷ ys) = (tt, AreLast-nil ys)

  AreLast-snoc :
      (out : List A) (y : A) (ys : List A)
      → AreLast out ys
      → IsFirst less y ys
      → AreLast (out ++ y ∷ []) ys
  AreLast-snoc out y [] h k = tt
  AreLast-snoc out y (z ∷ zs) h k =
      (All-append (λ x. less z x ≡ false) out (y ∷ []) h.0 (k.0, tt), AreLast-snoc out y zs h.1 k.1)

  insert-before : (y e : A) → less y e ≡ true → insert less y (e ∷ []) ≡ y ∷ e ∷ []
  unfolding insert
  insert-before y e h = rw h refl

  -- Of what is placed, the first elements depend on the first ones only.
  take-take : (n : ℕ) (ys : List A) → take n (take (suc n) ys) ≡ take n ys
  take-take zero ys = refl
  take-take (suc n) [] = refl
  take-take (suc n) (y ∷ ys) = ap (λ r. y ∷ r) (take-take n ys)

  take-cons : (n : ℕ) (y : A) (ys : List A) → take n (y ∷ ys) ≡ take n (y ∷ take n ys)
  take-cons zero y ys = refl
  take-cons (suc n) y ys = ap (λ r. y ∷ r) (sym (take-take n ys))

  pub take-place :
      (n : ℕ) (e : A) (ys : List A) → take n (place e ys) ≡ take n (place e (take n ys))
  unfolding place
  take-place zero e ys = refl
  take-place (suc n) e [] = refl
  take-place (suc n) e (y ∷ ys) = elim (Bool-cases (less y e)) [
    | inl l ↦ rw l (ap (λ r. y ∷ r) (take-place n e ys))
    | inr z ↦ rw z (ap (λ r. e ∷ r) (take-cons n y ys))
  ]

  IsFirst-take : (n : ℕ) (x : A) (ys : List A) → IsFirst less x ys → IsFirst less x (take n ys)
  IsFirst-take zero x ys h = tt
  IsFirst-take (suc n) x [] h = tt
  IsFirst-take (suc n) x (y ∷ ys) h = (h.0, IsFirst-take n x ys h.1)

  pub IsSorted-take : (n : ℕ) (ys : List A) → IsSorted less ys → IsSorted less (take n ys)
  IsSorted-take zero ys h = tt
  IsSorted-take (suc n) [] h = tt
  IsSorted-take (suc n) (y ∷ ys) h = (IsFirst-take n y ys h.0, IsSorted-take n ys h.1)

  module _ (order : IsOrder less) where
    sort_from-last :
        (out ys : List A) → AreLast out ys → IsSorted less ys → sort_from less out ys ≡ out ++ ys
    unfolding sort_from
    sort_from-last out [] h k = sym (append-nil out)
    sort_from-last out (y ∷ ys) h k =
        let step = sort_from-last (out ++ y ∷ []) ys (AreLast-snoc out y ys h.1 k.0) k.1 in
        rw (insert-last y out h.0) (step ∙ append_assoc out (y ∷ []) ys)

    sort_from-place :
        (e : A) (pre ys : List A)
        → AreLast pre ys
        → IsSorted less ys
        → sort_from less (pre ++ e ∷ []) ys ≡ pre ++ place e ys
    unfolding sort_from place
    sort_from-place e pre [] h k = refl
    sort_from-place e pre (y ∷ ys) h k = elim (Bool-cases (less y e)) [
      | inl l ↦
          rw (insert-behind y pre (e ∷ []) h.0, insert-before y e l, l)
            (rw (← append_assoc pre (y ∷ []) (e ∷ [])) (
              sort_from-place e (pre ++ y ∷ []) ys (AreLast-snoc pre y ys h.1 k.0) k.1
              ∙ append_assoc pre (y ∷ []) (place e ys)))
      | inr z ↦
          sort_from-last (pre ++ e ∷ []) (y ∷ ys)
            (AreLast-snoc pre e (y ∷ ys) h (
              z,
              All-imp (λ w. less w y ≡ false) (λ w. less w e ≡ false) ys
                  (λ w q. order.trans e y w z q) k.0,
            ))
            k
          ∙ append_assoc pre (e ∷ []) (y ∷ ys)
          ∙ rw z refl
    ]

    pub stable_sort-place :
        (e : A) (ys : List A) → IsSorted less ys → stable_sort less (e ∷ ys) ≡ place e ys
    unfolding stable_sort sort_from insert
    stable_sort-place e ys k = sort_from-place e [] ys (AreLast-nil ys) k
