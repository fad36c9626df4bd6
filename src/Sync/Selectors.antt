-- ===== src/Sync/Selectors.antt =====
-- Which datasets a configuration selects: internal/sync/selector.go. `glob` is path.Match, with
-- `none` for a malformed pattern. A Go map yields its keys in any order: here they stand in the order
-- of insertion.
mod Examples
mod Members
pub mod Distinct
pub mod Resolved
use civic_soda_quack.Prelude.{
  String, Bool, true, false, ◌&&◌, ◌||◌, not, Option, none, some, List, [], ◌∷◌, ◌++◌, map, any,
  Result, ok, err, ◌>>=◌, ◌>>◌, str_eq, if◌then◌else◌,
}
use civic_soda_quack.Config.{Config, Selector, effective_for}
use civic_soda_quack.Socrata.Catalog.{CatalogEntry}
use civic_soda_quack.Sync.{Target}

pub data ResolveError : Type 0 where
  only_not_selected : String → ResolveError
  nothing_matched : ResolveError

abbrev pub member : String → List String → Bool
member x [] = false
member x (y ∷ ys) = str_eq x y || member x ys

-- A key is put into a map that may hold it.
pub add : String → List String → List String
add x xs = if member x xs then xs else xs ++ x ∷ []

-- The keys that a deletion leaves.
pub keep : (String → Bool) → List String → List String
keep p [] = []
keep p (x ∷ xs) = let rest = keep p xs in if p x then x ∷ rest else rest

-- `globMatch`
pub glob_match : (String → String → Option Bool) → String → String → Bool
glob_match glob pattern s = elim (glob pattern s) [ none ↦ false | some b ↦ b ]

-- The first id of `--only` that is not selected is an error.
pub check_only : List String → List String → Result ResolveError (Unit {0})
check_only set [] = ok tt
check_only set (id ∷ ids) =
    let rest = check_only set ids in if member id set then rest else err (only_not_selected id)

pub restrict_only : List String → List String → Result ResolveError (List String)
restrict_only [] set = ok set
restrict_only (id ∷ ids) set = check_only set (id ∷ ids) >> ok (keep (λ x. member x (id ∷ ids)) set)

module _ {T : Type 0} where
  -- The zero value of a missing key.
  zero_entry : CatalogEntry T
  zero_entry = record {
    id = "";
    name = "";
    description = "";
    category = "";
    tags = [];
    updated_at = none;
  }

  -- `byID[id]`: a later entry overwrites an earlier one.
  pub by_id_from : CatalogEntry T → List (CatalogEntry T) → String → CatalogEntry T
  by_id_from found [] id = found
  by_id_from found (e ∷ es) id = by_id_from (if str_eq e.id id then e else found) es id

  pub by_id : List (CatalogEntry T) → String → CatalogEntry T
  by_id catalog id = by_id_from zero_entry catalog id

module _ {T : Type 0} where
  pub target_of : Config → List (CatalogEntry T) → String → Target
  target_of cfg catalog id = record {
    id = id;
    name = (by_id catalog id).name;
    effective = effective_for cfg id;
  }

  pub targets_of : Config → List (CatalogEntry T) → List String → Result ResolveError (List Target)
  targets_of cfg catalog [] = err nothing_matched
  targets_of cfg catalog (id ∷ ids) = ok (map (target_of cfg catalog) (id ∷ ids))

module _ {T : Type 0} (glob : String → String → Option Bool) where
  -- `matchSelector`
  pub match_selector : Selector → CatalogEntry T → Bool
  match_selector sel e =
      if not (str_eq sel.id "")
      then str_eq sel.id e.id
      else if not (str_eq sel.name "")
      then glob_match glob sel.name e.name
      else if not (str_eq sel.category "")
      then glob_match glob sel.category e.category
      else if not (str_eq sel.tag "")
      then any (glob_match glob sel.tag) e.tags
      else false

  pub include_one : Selector → List (CatalogEntry T) → List String → List String
  include_one sel [] set = set
  include_one sel (e ∷ es) set =
      include_one sel es (if match_selector sel e then add e.id set else set)

  pub include_all : List (CatalogEntry T) → List Selector → List String → List String
  include_all catalog [] set = set
  include_all catalog (sel ∷ sels) set = include_all catalog sels (include_one sel catalog set)

  pub exclude_all : List (CatalogEntry T) → List Selector → List String → List String
  exclude_all catalog [] set = set
  exclude_all catalog (sel ∷ sels) set =
      exclude_all catalog sels (keep (λ id. not (match_selector sel (by_id catalog id))) set)

  -- `DefaultSelectorResolver.Resolve`
  pub resolve : Config → List (CatalogEntry T) → List String → Result ResolveError (List Target)
  resolve cfg catalog only = do
    let included = exclude_all catalog cfg.exclude (include_all catalog cfg.include [])
    restricted ← restrict_only only included
    targets_of cfg catalog restricted
