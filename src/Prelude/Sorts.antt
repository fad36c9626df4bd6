-- ===== src/Prelude/Sorts.antt =====
-- sort.SliceStable, as an insertion of one element after the other behind those that it is not less
-- than, and its laws.
pub mod Keeps
pub mod Places
use mathlib.Core.Path.{◌≡◌}
use mathlib.Core.Logic.{◌↔◌, inl, inr}
use mathlib.Core.Bool.{Bool, true, false}
use mathlib.Core.List.{List, [], ◌∷◌}
use Prim.Native.Nat.{ℕ, suc, ◌+◌}
use native.Mathlib.Omega.{arith}
use civic_soda_quack.Prelude.Tests.{if◌then◌else◌, Bool-cases}
use civic_soda_quack.Prelude.Lists.{All, All-imp, length}

module _ {A : Type 0} (less : A → A → Bool) where
  pub insert : A → List A → List A
  insert x [] = x ∷ []
  insert x (y ∷ ys) = let rest = insert x ys in if less x y then x ∷ y ∷ ys else y ∷ rest

  pub sort_from : List A → List A → List A
  unfolding insert
  sort_from out [] = out
  sort_from out (x ∷ xs) = sort_from (insert x out) xs

  unfoldable pub stable_sort : List A → List A
  unfolding sort_from
  stable_sort xs = sort_from [] xs

  -- Nothing in the list is less.
  abbrev pub IsFirst : A → List A → Type 0
  IsFirst x ys = All (λ y. less y x ≡ false) ys

  abbrev pub IsSorted : List A → Type 0
  IsSorted [] = Unit
  IsSorted (x ∷ xs) = IsFirst x xs × IsSorted xs

  -- What is relied on of the order.
  pub record IsOrder : Type 0 where
    pub asym : (a b : A) → less a b ≡ true → less b a ≡ false
    pub trans : (a b c : A) → less b a ≡ false → less c b ≡ false → less c a ≡ false

  insert-All : (P : A → Type 0) (x : A) (ys : List A) → All P (insert x ys) ↔ (P x × All P ys)
  unfolding insert
  insert-All P x [] = ((λ h. h), (λ h. h))
  insert-All P x (y ∷ ys) =
      let rest = insert-All P x ys in
      elim (Bool-cases (less x y)) [
        | inl e ↦ rw e ((λ h. h), (λ h. h))
        | inr z ↦
            rw z
              ((λ h. ((rest.0 h.1).0, (h.0, (rest.0 h.1).1))), (λ h. (h.1.0, rest.1 (h.0, h.1.1))))
      ]

  sort_from-All :
      (P : A → Type 0) (out xs : List A) → All P (sort_from out xs) ↔ (All P out × All P xs)
  unfolding sort_from
  sort_from-All P out [] = ((λ h. (h, tt)), (λ h. h.0))
  sort_from-All P out (x ∷ xs) =
      let i = insert-All P x out in
      let r = sort_from-All P (insert x out) xs in
      (
        (λ h. let k = r.0 h in ((i.0 k.0).1, ((i.0 k.0).0, k.1))),
        (λ h. r.1 (i.1 (h.1.0, h.0), h.1.1)),
      )

  -- The sorted list has the same elements.
  pub stable_sort-All : (P : A → Type 0) (xs : List A) → All P (stable_sort xs) ↔ All P xs
  unfolding stable_sort
  stable_sort-All P xs = let a = sort_from-All P [] xs in ((λ h. (a.0 h).1), (λ h. a.1 (tt, h)))

  insert-length : (x : A) (ys : List A) → length (insert x ys) ≡ suc (length ys)
  unfolding insert
  insert-length x [] = omega arith
  insert-length x (y ∷ ys) = ground (arith, insert-length x ys)

  sort_from-length : (out xs : List A) → length (sort_from out xs) ≡ length out + length xs
  unfolding sort_from
  sort_from-length out [] = omega arith
  sort_from-length out (x ∷ xs) =
      omega (arith, sort_from-length (insert x out) xs, insert-length x out)

  pub stable_sort-length : (xs : List A) → length (stable_sort xs) ≡ length xs
  unfolding stable_sort
  stable_sort-length xs = omega (arith, sort_from-length [] xs)

  module _ (order : IsOrder) where
    insert-IsSorted : (x : A) (ys : List A) → IsSorted ys → IsSorted (insert x ys)
    unfolding insert
    insert-IsSorted x [] h = (tt, tt)
    insert-IsSorted x (y ∷ ys) h = elim (Bool-cases (less x y)) [
      | inl e ↦ rw e (
          let below = order.asym x y e in
          (
            (
              below,
              All-imp (λ z. less z y ≡ false) (λ z. less z x ≡ false) ys
                  (λ z k. order.trans x y z below k) h.0,
            ),
            h,
          ))
      | inr z ↦
          rw z ((insert-All (λ w. less w y ≡ false) x ys).1 (z, h.0), insert-IsSorted x ys h.1)
    ]

    sort_from-IsSorted : (out xs : List A) → IsSorted out → IsSorted (sort_from out xs)
    unfolding sort_from
    sort_from-IsSorted out [] h = h
    sort_from-IsSorted out (x ∷ xs) h =
        sort_from-IsSorted (insert x out) xs (insert-IsSorted x out h)

    pub stable_sort-IsSorted : (xs : List A) → IsSorted (stable_sort xs)
    unfolding stable_sort
    stable_sort-IsSorted xs = sort_from-IsSorted [] xs tt
