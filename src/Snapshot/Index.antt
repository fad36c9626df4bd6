-- ===== src/Snapshot/Index.antt =====
-- The index of a portal's snapshots: internal/snapshot/index.go. `newer` is the order of the ids, and
-- `T` a time.
pub mod Newest
use civic_soda_quack.Prelude.{
  ℕ, zero, suc, ◌+◌, String, Bool, true, false, ◌&&◌, ◌||◌, not, Option, none, some, List, [], ◌∷◌,
  ◌++◌, Result, ok, err, ◌>>◌, str_eq, if◌then◌else◌, ltb, ◌==◌, length, take,
}
use civic_soda_quack.Prelude.Int.{ℤ, pos, leb_ℤ, eqb_ℤ}
use civic_soda_quack.Prelude.Sorts.{stable_sort}

pub record IndexEntry (T : Type 0) : Type 0 where
  pub snapshot_id : String
  pub created_at : T
  pub url : String
  pub size_bytes : ℤ
  pub sha256 : String

pub record Index (T : Type 0) : Type 0 where
  pub schema_version : ℤ
  pub portal : String
  pub snapshots : List (IndexEntry T)

pub data IndexError : Type 0 where
  unsupported_schema : ℤ → IndexError
  no_portal : IndexError
  no_snapshot_id : ℕ → IndexError
  no_url no_sha256 no_size no_created_at : ℕ → String → IndexError

module _ {T : Type 0} where
  abbrev pub is_newer : (String → String → Bool) → IndexEntry T → IndexEntry T → Bool
  is_newer newer a b = newer a.snapshot_id b.snapshot_id

  -- At most so many entries, where the limit is positive.
  abbrev pub truncated : ℤ → List (IndexEntry T) → List (IndexEntry T)
  truncated (pos (suc n)) es = take (suc n) es
  truncated _ es = es

  -- `Add`
  pub add : (String → String → Bool) → IndexEntry T → ℤ → Index T → Index T
  unfolding stable_sort
  add newer e max_keep i = record i {
    snapshots = truncated max_keep (stable_sort (is_newer newer) (e ∷ i.snapshots));
  }

  -- `Latest`
  pub latest : Index T → Option (IndexEntry T)
  latest i = elim i.snapshots [ [] ↦ none | e ∷ es ↦ some e ]

  pub find_in : String → List (IndexEntry T) → Option (IndexEntry T)
  find_in id [] = none
  find_in id (e ∷ es) = if str_eq e.snapshot_id id then some e else find_in id es

  -- `FindByID`
  pub find_by_id : String → Index T → Option (IndexEntry T)
  unfolding find_in
  find_by_id id i = find_in id i.snapshots

  module _ (is_zero : T → Bool) where
    -- The checks on the entry at place `n`.
    pub check_entry : ℕ → IndexEntry T → Option IndexError
    check_entry n e =
        if str_eq e.snapshot_id ""
        then some (no_snapshot_id n)
        else if str_eq e.url ""
        then some (no_url n e.snapshot_id)
        else if str_eq e.sha256 ""
        then some (no_sha256 n e.snapshot_id)
        else if leb_ℤ e.size_bytes (pos 0)
        then some (no_size n e.snapshot_id)
        else if is_zero e.created_at
        then some (no_created_at n e.snapshot_id)
        else none

    abbrev pub or_else : Option IndexError → Option IndexError → Option IndexError
    or_else none later = later
    or_else (some e) later = some e

    pub check_entries : ℕ → List (IndexEntry T) → Option IndexError
    unfolding check_entry
    check_entries n [] = none
    check_entries n (e ∷ es) = or_else (check_entry n e) (check_entries (suc n) es)

    -- `ValidateIndex`
    pub validate_index : Index T → Option IndexError
    unfolding check_entries
    validate_index i =
        if not (eqb_ℤ i.schema_version (pos 1))
        then some (unsupported_schema i.schema_version)
        else if str_eq i.portal ""
        then some no_portal
        else check_entries 0 i.snapshots
