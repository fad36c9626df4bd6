-- ===== src/Prelude/Sorts/Keeps.antt =====
-- That sorting only changes places.
use mathlib.Core.List.{List, [], ◌∷◌, ◌++◌, Perm, perm_middle}
use mathlib.Core.List.Perm
use mathlib.Core.Bool.{Bool}
use mathlib.Core.Path.{subst}
use mathlib.Core.List.{append-nil}
use mathlib.Core.Logic.{inl, inr}
use civic_soda_quack.Prelude.Tests.{Bool-cases}
use civic_soda_quack.Prelude.Sorts.{insert, sort_from, stable_sort}

module _ {A : Type 0} (less : A → A → Bool) where
  insert-Perm : (x : A) (ys : List A) → Perm (insert less x ys) (x ∷ ys)
  unfolding insert
  insert-Perm x [] = Perm.refl (x ∷ [])
  insert-Perm x (y ∷ ys) = elim (Bool-cases (less x y)) [
    | inl e ↦ rw e (Perm.refl (x ∷ y ∷ ys))
    | inr z ↦ rw z (Perm.trans (Perm.cons y (insert-Perm x ys)) (Perm.swap x y ys))
  ]

  sort_from-Perm : (out xs : List A) → Perm (sort_from less out xs) (xs ++ out)
  unfolding sort_from
  sort_from-Perm out [] = Perm.refl out
  sort_from-Perm out (x ∷ xs) =
      Perm.trans (sort_from-Perm (insert less x out) xs)
        (Perm.trans (Perm.append_left xs (insert-Perm x out)) (perm_middle xs out))

  pub stable_sort-Perm : (xs : List A) → Perm (stable_sort less xs) xs
  unfolding stable_sort
  stable_sort-Perm xs = subst (Perm (stable_sort less xs)) (append-nil xs) (sort_from-Perm [] xs)
