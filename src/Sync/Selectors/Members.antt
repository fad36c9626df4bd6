-- ===== src/Sync/Selectors/Members.antt =====
-- Which ids a map of ids holds after each loop of `Resolve`.
use civic_soda_quack.Prelude.{
  ◌≡◌, refl, String, Bool, ◌&&◌, ◌||◌, not, Option, List, [], ◌∷◌, ◌++◌, any, all, str_eq, eq_iff,
  arith, if◌then◌else◌,
}
use civic_soda_quack.Config.{Selector}
use civic_soda_quack.Socrata.Catalog.{CatalogEntry}
use civic_soda_quack.Sync.Selectors.{
  member, add, keep, match_selector, by_id, include_one, include_all, exclude_all,
}

pub member-append :
    (x : String) (xs ys : List String) → member x (xs ++ ys) ≡ (member x xs || member x ys)
member-append x [] ys = refl
member-append x (y ∷ xs) ys = ground (arith, member-append x xs ys)

member-add : (x y : String) (xs : List String) → member x (add y xs) ≡ (member x xs || str_eq x y)
unfolding add
member-add x y xs = ground (arith, member-append x xs (y ∷ []), eq_iff x y)

pub member-keep :
    (p : String → Bool) (x : String) (xs : List String)
    → member x (keep p xs) ≡ (member x xs && p x)
unfolding keep
member-keep p x [] = refl
member-keep p x (y ∷ xs) = ground (arith, member-keep p x xs, eq_iff x y)

module _ {T : Type 0} (glob : String → String → Option Bool) where
  member-include_one :
      (x : String) (sel : Selector) (es : List (CatalogEntry T)) (set : List String)
      → member x (include_one glob sel es set)
        ≡ (member x set || any (λ e. match_selector glob sel e && str_eq x e.id) es)
  unfolding include_one
  member-include_one x sel [] set = ground arith
  member-include_one x sel (e ∷ es) set = ground (
    arith,
    member-include_one x sel es (if match_selector glob sel e then add e.id set else set),
    member-add x e.id set,
  )

  pub member-include_all :
      (x : String) (catalog : List (CatalogEntry T)) (sels : List Selector) (set : List String)
      → member x (include_all glob catalog sels set) ≡ (
          member x set
          || any (λ sel. any (λ e. match_selector glob sel e && str_eq x e.id) catalog) sels)
  unfolding include_all
  member-include_all x catalog [] set = ground arith
  member-include_all x catalog (sel ∷ sels) set = ground (
    arith,
    member-include_all x catalog sels (include_one glob sel catalog set),
    member-include_one x sel catalog set,
  )

  pub member-exclude_all :
      (x : String) (catalog : List (CatalogEntry T)) (sels : List Selector) (set : List String)
      → member x (exclude_all glob catalog sels set)
        ≡ (member x set && all (λ sel. not (match_selector glob sel (by_id catalog x))) sels)
  unfolding exclude_all
  member-exclude_all x catalog [] set = ground arith
  member-exclude_all x catalog (sel ∷ sels) set = ground (
    arith,
    member-exclude_all x catalog sels
        (keep (λ id. not (match_selector glob sel (by_id catalog id))) set),
    member-keep (λ id. not (match_selector glob sel (by_id catalog id))) x set,
  )
