-- ===== src/Duckdb/Sweep.antt =====
-- What a sweep clears before a run: `SweepAbandoned` of internal/duckdb/sweep.go. The arguments of type
-- `Option E` say which statements fail; a listing of the staging tables that fails does so before its
-- first row.
pub mod Clears
mod Examples
use civic_soda_quack.Prelude.{
  ℕ, zero, suc, ◌+◌, String, Option, none, some, List, [], ◌∷◌, map, if◌then◌else◌,
}
use civic_soda_quack.Duckdb.Runs.{SyncRun, unfinished, incomplete_sync_run_count}

-- `SweepResult`
pub record SweepResult : Type 0 where
  pub staging_tables : ℕ
  pub staging_rows : ℕ
  pub abandoned_runs : ℕ

pub data SweepError (E : Type 0) : Type 0 where
  list_staging : E → SweepError E
  drop_staging : String → E → SweepError E
  resolve_runs : E → SweepError E

-- The part of the database that a sweep touches: staging tables with their estimated sizes, and runs.
pub record Base (T D : Type 0) : Type 0 where
  pub staging : List (String × Option ℕ)
  pub runs : List (SyncRun T D)

abbrev pub coalesce : {A : Type 0} → Option A → A → A
coalesce none b = b
coalesce (some a) b = a

abbrev pub unfinished_message : String
unfinished_message = "run did not finish; the process ended before it could record an outcome"

abbrev pub staging_size : List (String × Option ℕ) → ℕ
staging_size [] = 0
staging_size ((name, size) ∷ rest) = coalesce size 0 + staging_size rest

-- One drop of the loop: `n` tables are gone before it.
abbrev pub drop_one :
    {E : Type 0}
    → String × Option ℕ
    → List (String × Option ℕ)
    → ℕ
    → Option E
    → (ℕ × Option (SweepError E)) × List (String × Option ℕ)
    → (ℕ × Option (SweepError E)) × List (String × Option ℕ)
drop_one t rest n (some e) later = ((n, some (drop_staging t.0 e)), t ∷ rest)
drop_one t rest n none later = later

-- The loop of drops: how many tables are gone, the first drop that failed, and what is left.
pub drop_all :
    {E : Type 0}
    → (String → Option E)
    → List (String × Option ℕ)
    → ℕ
    → (ℕ × Option (SweepError E)) × List (String × Option ℕ)
drop_all fault [] n = ((n, none), [])
drop_all fault (t ∷ rest) n = drop_one t rest n (fault t.0) (drop_all fault rest (suc n))

module _ {T D : Type 0} where
  -- A row that the sweep resolves.
  pub abandoned : T → SyncRun T D → SyncRun T D
  abandoned now r =
      if unfinished r
      then record r {
        status = "aborted";
        finished_at = some now;
        error = some (coalesce r.error unfinished_message);
      }
      else r

-- The count of RowsAffected, whose error leaves the result at 0 and is not passed on.
abbrev pub affected : {E : Type 0} → Option E → ℕ → ℕ
affected none n = n
affected (some e) n = 0

module _ {E T D : Type 0} where
  module _ (update_fault affected_fault : Option E) where
    -- After the drops.
    pub resolve_unfinished :
        T
        → ℕ
        → (ℕ × Option (SweepError E)) × List (String × Option ℕ)
        → List (SyncRun T D)
        → (SweepResult × Option (SweepError E)) × Base T D
    unfolding abandoned
    resolve_unfinished now size ((n, some e), left) rows = (
      (record { staging_tables = n; staging_rows = size; abandoned_runs = 0 }, some e),
      record { staging = left; runs = rows },
    )
    resolve_unfinished now size ((n, none), left) rows = elim update_fault [
      | some e ↦ (
        (
          record { staging_tables = n; staging_rows = size; abandoned_runs = 0 },
          some (resolve_runs e),
        ),
        record { staging = left; runs = rows },
      )
      | none ↦ (
        (
          record {
            staging_tables = n;
            staging_rows = size;
            abandoned_runs = affected affected_fault (incomplete_sync_run_count rows);
          },
          none,
        ),
        record { staging = left; runs = map (abandoned now) rows },
      )
    ]

    -- `SweepAbandoned`
    pub sweep_abandoned :
        Option E
        → (String → Option E)
        → T
        → Base T D
        → (SweepResult × Option (SweepError E)) × Base T D
    unfolding resolve_unfinished drop_all
    sweep_abandoned list_fault drop_fault now base = elim list_fault [
      | some e ↦ (
        (
          record { staging_tables = 0; staging_rows = 0; abandoned_runs = 0 },
          some (list_staging e),
        ),
        base,
      )
      | none ↦
          resolve_unfinished now (staging_size base.staging) (drop_all drop_fault base.staging 0)
            base.runs
    ]
