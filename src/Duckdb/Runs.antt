-- ===== src/Duckdb/Runs.antt =====
-- The table of sync runs: internal/duckdb/sync_runs.go. A statement is what it does to the table; `E` is an error of the driver, and the
-- arguments of type `Option E` say which statements fail. A row's rowid is its position: no statement
-- of the repository deletes from the table. `T` is a time, `D` a duration in milliseconds.
pub mod Rows
mod Examples
use civic_soda_quack.Prelude.{
  ℕ, zero, suc, ◌+◌, String, Bool, true, false, ◌&&◌, ◌||◌, not, Option, none, some, List, [], ◌∷◌,
  ◌++◌, map, any, Result, ok, err, length, get_elem?, str_eq, if◌then◌else◌,
}

-- A row of `_csq.sync_runs`.
pub record SyncRun (T D : Type 0) : Type 0 where
  pub run_id : String
  pub dataset_id : String
  pub table_name : String
  pub config_hash : String
  pub started_at : T
  pub finished_at : Option T
  pub status : String
  pub rows_written : Option ℕ
  pub error : Option String
  pub duration_ms : Option D

pub data RunsError (E : Type 0) : Type 0 where
  insert_start fetch_rowid lookup_started update_finish : E → RunsError E
  duplicate_key no_row : RunsError E

-- The rowid of the last row that satisfies a test: `ORDER BY rowid DESC LIMIT 1`.
pub newest_row : {R : Type 0} → (R → Bool) → List R → Option ℕ
newest_row p [] = none
newest_row p (r ∷ rs) = elim (newest_row p rs) [
  | some i ↦ some (suc i)
  | none ↦ if p r then some 0 else none
]

-- `UPDATE ... WHERE rowid = i`
pub update_row : {R : Type 0} → (R → R) → ℕ → List R → List R
update_row f i [] = []
update_row f zero (r ∷ rs) = f r ∷ rs
update_row f (suc i) (r ∷ rs) = r ∷ update_row f i rs

abbrev pub is_none : {A : Type 0} → Option A → Bool
is_none none = true
is_none (some a) = false

abbrev pub none_if_empty : String → Option String
none_if_empty s = if str_eq s "" then none else some s

module _ {T D : Type 0} where
  -- `WHERE finished_at IS NULL`
  abbrev pub unfinished : SyncRun T D → Bool
  unfinished r = is_none r.finished_at

  unfoldable pub incomplete_sync_run_count : List (SyncRun T D) → ℕ
  incomplete_sync_run_count [] = 0
  incomplete_sync_run_count (r ∷ rs) =
      let rest = incomplete_sync_run_count rs in if unfinished r then suc rest else rest

  -- The row that a start inserts.
  unfoldable pub started_run : String → String → String → String → T → SyncRun T D
  started_run run_id dataset_id table_name config_hash started_at = record {
    run_id = run_id;
    dataset_id = dataset_id;
    table_name = table_name;
    config_hash = config_hash;
    started_at = started_at;
    finished_at = none;
    status = "running";
    rows_written = none;
    error = none;
    duration_ms = none;
  }

  -- `PRIMARY KEY (run_id, dataset_id)`
  abbrev pub same_key : SyncRun T D → SyncRun T D → Bool
  same_key a b = str_eq a.run_id b.run_id && str_eq a.dataset_id b.dataset_id

  -- The row after `FinishSyncRun`; `since` is `finishedAt.Sub(startedAt).Milliseconds()`.
  pub finished_run : (T → T → D) → String → ℕ → String → T → SyncRun T D → SyncRun T D
  finished_run since status rows message now r = record r {
    finished_at = some now;
    status = status;
    rows_written = if str_eq status "ok" then some rows else none;
    error = none_if_empty message;
    duration_ms = some (since now r.started_at);
  }

module _ {E T D : Type 0} where
  -- `same_time` is the equality of SQL on times.
  module _ (same_time : T → T → Bool) (insert_fault select_fault : Option E) where
    abbrev pub found_rowid :
        Option ℕ → List (SyncRun T D) → Result (RunsError E) ℕ × List (SyncRun T D)
    found_rowid none rows = (err no_row, rows)
    found_rowid (some i) rows = (ok i, rows)

    pub select_rowid :
        SyncRun T D → List (SyncRun T D) → Result (RunsError E) ℕ × List (SyncRun T D)
    unfolding newest_row
    select_rowid r rows = elim select_fault [
      | some e ↦ (err (fetch_rowid e), rows)
      | none ↦
          found_rowid (newest_row (λ s. same_key s r && same_time s.started_at r.started_at) rows)
            rows
    ]

    -- `StartSyncRun`
    pub start_sync_run :
        SyncRun T D → List (SyncRun T D) → Result (RunsError E) ℕ × List (SyncRun T D)
    unfolding select_rowid
    start_sync_run r rows = elim insert_fault [
      | some e ↦ (err (insert_start e), rows)
      | none ↦
          if any (same_key r) rows
          then (err duplicate_key, rows)
          else select_rowid r (rows ++ (r ∷ []))
    ]

  module _ (since : T → T → D) (select_fault update_fault : Option E) where
    -- The update, and the table if it fails.
    abbrev pub set_row :
        (SyncRun T D → SyncRun T D)
        → ℕ
        → List (SyncRun T D)
        → Result (RunsError E) (Unit {0}) × List (SyncRun T D)
    set_row f i rows = elim update_fault [
      | some e ↦ (err (update_finish e), rows)
      | none ↦ (ok tt, update_row f i rows)
    ]

    abbrev pub set_found :
        Option (SyncRun T D)
        → (SyncRun T D → SyncRun T D)
        → ℕ
        → List (SyncRun T D)
        → Result (RunsError E) (Unit {0}) × List (SyncRun T D)
    set_found none f i rows = (err no_row, rows)
    set_found (some r) f i rows = set_row f i rows

    -- `FinishSyncRun`
    pub finish_sync_run :
        ℕ
        → String
        → ℕ
        → String
        → T
        → List (SyncRun T D)
        → Result (RunsError E) (Unit {0}) × List (SyncRun T D)
    unfolding finished_run update_row
    finish_sync_run i status written message now rows = elim select_fault [
      | some e ↦ (err (lookup_started e), rows)
      | none ↦ set_found (get_elem? rows i) (finished_run since status written message now) i rows
    ]
