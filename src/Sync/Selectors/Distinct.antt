-- ===== src/Sync/Selectors/Distinct.antt =====
-- The selected ids are distinct.
use civic_soda_quack.Prelude.{
  ◌≡◌, refl, String, Bool, false, not, Option, List, [], ◌∷◌, ◌++◌, inl, inr, eq_iff, arith,
  Bool-cases,
}
use civic_soda_quack.Config.{Selector}
use civic_soda_quack.Socrata.Catalog.{CatalogEntry}
use civic_soda_quack.Sync.Selectors.{
  member, add, keep, match_selector, by_id, include_one, include_all, exclude_all,
}
use civic_soda_quack.Sync.Selectors.Members.{member-append, member-keep}

-- No id stands twice.
abbrev pub NoRepeats : List String → Type 0
NoRepeats [] = Unit
NoRepeats (x ∷ xs) = (member x xs ≡ false) × NoRepeats xs

NoRepeats-append_one :
    (x : String) (xs : List String) → member x xs ≡ false → NoRepeats xs → NoRepeats (xs ++ x ∷ [])
NoRepeats-append_one x [] out h = (refl, tt)
NoRepeats-append_one x (y ∷ xs) out (fresh, h) = (
  rw (member-append y xs (x ∷ [])) (ground (arith, eq_iff x y, eq_iff y x)),
  NoRepeats-append_one x xs (ground arith) h,
)

add-NoRepeats : (x : String) (xs : List String) → NoRepeats xs → NoRepeats (add x xs)
unfolding add
add-NoRepeats x xs h = elim (Bool-cases (member x xs)) [
  | inl y ↦ rw y h
  | inr z ↦ rw z (NoRepeats-append_one x xs z h)
]

pub keep-NoRepeats : (p : String → Bool) (xs : List String) → NoRepeats xs → NoRepeats (keep p xs)
unfolding keep
keep-NoRepeats p [] h = tt
keep-NoRepeats p (x ∷ xs) (fresh, h) = elim (Bool-cases (p x)) [
  | inl y ↦ rw y (rw (member-keep p x xs, fresh) refl, keep-NoRepeats p xs h)
  | inr z ↦ rw z (keep-NoRepeats p xs h)
]

module _ {T : Type 0} (glob : String → String → Option Bool) where
  include_one-NoRepeats :
      (sel : Selector) (es : List (CatalogEntry T)) (set : List String)
      → NoRepeats set
      → NoRepeats (include_one glob sel es set)
  unfolding include_one
  include_one-NoRepeats sel [] set h = h
  include_one-NoRepeats sel (e ∷ es) set h = elim (Bool-cases (match_selector glob sel e)) [
    | inl y ↦ rw y (include_one-NoRepeats sel es (add e.id set) (add-NoRepeats e.id set h))
    | inr z ↦ rw z (include_one-NoRepeats sel es set h)
  ]

  pub include_all-NoRepeats :
      (catalog : List (CatalogEntry T)) (sels : List Selector) (set : List String)
      → NoRepeats set
      → NoRepeats (include_all glob catalog sels set)
  unfolding include_all
  include_all-NoRepeats catalog [] set h = h
  include_all-NoRepeats catalog (sel ∷ sels) set h =
      include_all-NoRepeats catalog sels (include_one glob sel catalog set)
        (include_one-NoRepeats sel catalog set h)

  pub exclude_all-NoRepeats :
      (catalog : List (CatalogEntry T)) (sels : List Selector) (set : List String)
      → NoRepeats set
      → NoRepeats (exclude_all glob catalog sels set)
  unfolding exclude_all
  exclude_all-NoRepeats catalog [] set h = h
  exclude_all-NoRepeats catalog (sel ∷ sels) set h =
      exclude_all-NoRepeats catalog sels _
        (keep-NoRepeats (λ id. not (match_selector glob sel (by_id catalog id))) set h)
