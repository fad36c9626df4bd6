-- ===== src/Sync/Run.antt =====
-- What a run of internal/sync/run.go does before its goroutines, `Run` down to the dry run, and what
-- one of them does to the table of runs, `runOne` and `recordAborted`. The table stands beside the rest
-- `X` of the world, which a strategy works on. The texts of errors, the reports and the run's id are
-- left out.
pub mod Books
pub mod DryRun
mod Examples
use civic_soda_quack.Prelude.{
  ℕ, String, Bool, true, false, ◌||◌, Option, none, some, List, [], ◌∷◌, Result, ok, err,
  if◌then◌else◌,
}
use civic_soda_quack.Config.{Config}
use civic_soda_quack.Socrata.Catalog.{CatalogEntry}
use civic_soda_quack.Duckdb.Runs.{SyncRun, RunsError, started_run, start_sync_run, finish_sync_run}
use civic_soda_quack.Sync.{Target}
use civic_soda_quack.Sync.Selectors.{ResolveError, resolve}
use civic_soda_quack.Sync.Plan.{PlanError, plan}
use civic_soda_quack.Sync.Incremental.{Status, done, failed, aborted, SyncError, DatasetResult}

-- The status as it is stored.
pub status_text : Status → String
status_text done = "ok"
status_text failed = "failed"
status_text aborted = "aborted"

-- Which of the statements on the table fail.
pub record Faults (E : Type 0) : Type 0 where
  pub insert : Option E
  pub rowid : Option E
  pub started : Option E
  pub finish : Option E

pub data RunOneError (E : Type 0) : Type 0 where
  syncing : SyncError E → RunOneError E
  bookkeeping : RunsError E → RunOneError E

pub record RunOneResult (E : Type 0) : Type 0 where
  pub status : Status
  pub rows_written : ℕ
  pub error : Option (RunOneError E)

-- The times, the digest of a target and the texts of errors.
pub record Texts (E T D : Type 0) : Type 0 where
  pub same_time : T → T → Bool
  pub since : T → T → D
  pub config_hash : Target → String
  pub error_text : Option (SyncError E) → String

-- What a run calls before its goroutines start.
pub record Services (E T W : Type 0) : Type 0 where
  pub sweep : W → Result E (Unit {0}) × W
  pub read_catalog : W → Result E (List (CatalogEntry T))
  pub fetch_catalog : W → Result E (List (CatalogEntry T)) × W
  pub upsert_catalog : List (CatalogEntry T) → W → Result E (Unit {0}) × W

pub record Flags : Type 0 where
  pub only : List String
  pub dry_run : Bool
  pub refresh_catalog : Bool
  pub full_refresh_all : Bool
  pub full_refresh_ids : List String

pub data PrepareError (E : Type 0) : Type 0 where
  sweep_failed read_failed fetch_failed upsert_failed : E → PrepareError E
  unresolved : ResolveError → PrepareError E
  unplanned : PlanError → PrepareError E

module _ {E T D : Type 0} (texts : Texts E T D) (faults : Faults E) (run_id : String)
    (t : Target) where
  abbrev pub first_row : T → SyncRun T D
  first_row now = started_run run_id t.id t.effective.table (texts.config_hash t) now

  -- `recordAborted`; the message is the cause's, or else "aborted".
  abbrev pub abort_opened :
      String → T → Result (RunsError E) ℕ × List (SyncRun T D) → List (SyncRun T D)
  abort_opened message now (err e, rows) = rows
  abort_opened message now (ok i, rows) =
      (finish_sync_run texts.since faults.started faults.finish i (status_text aborted) 0 message
        now rows).1

  pub record_aborted : Option String → T → List (SyncRun T D) → List (SyncRun T D)
  record_aborted cause now rows =
      abort_opened (elim cause [ none ↦ "aborted" | some message ↦ message ]) now
        (start_sync_run texts.same_time faults.insert faults.rowid (first_row now) rows)

  module _ {X : Type 0} where
    -- An error of the strategy stands before one of the table.
    abbrev pub with_finish :
        DatasetResult E
        → Result (RunsError E) (Unit {0}) × List (SyncRun T D)
        → X
        → RunOneResult E × (List (SyncRun T D) × X)
    with_finish res (finished, rows) x = (
      record {
        status = res.status;
        rows_written = res.rows_written;
        error = elim res.error [
          | some e ↦ some (syncing e)
          | none ↦ elim finished [ err e ↦ some (bookkeeping e) | ok u ↦ none ]
        ];
      },
      (rows, x),
    )

    pub synced :
        ℕ → T → List (SyncRun T D) → DatasetResult E × X → RunOneResult E × (List (SyncRun T D) × X)
    unfolding status_text
    synced i now rows (res, x) =
        with_finish res
          (finish_sync_run texts.since faults.started faults.finish i (status_text res.status)
            res.rows_written (texts.error_text res.error) now rows)
          x

    pub opened :
        (X → DatasetResult E × X)
        → T
        → X
        → Result (RunsError E) ℕ × List (SyncRun T D)
        → RunOneResult E × (List (SyncRun T D) × X)
    unfolding synced
    opened sync now x (err e, rows) =
        (record { status = failed; rows_written = 0; error = some (bookkeeping e) }, (rows, x))
    opened sync now x (ok i, rows) = synced i now rows (sync x)

    -- `runOne`, from `started` to `now`.
    pub run_one :
        (X → DatasetResult E × X)
        → T
        → T
        → List (SyncRun T D) × X
        → RunOneResult E × (List (SyncRun T D) × X)
    unfolding opened
    run_one sync started now (rows, x) =
        opened sync now x
          (start_sync_run texts.same_time faults.insert faults.rowid (first_row started) rows)

abbrev pub is_nil : {A : Type 0} → List A → Bool
is_nil [] = true
is_nil (a ∷ rest) = false

module _ {E T W : Type 0} (services : Services E T W) (flags : Flags) where
  abbrev pub Prepared : Type 0 → Type 0
  Prepared A = Result (PrepareError E) A × W

  abbrev pub upserted :
      List (CatalogEntry T) → Result E (Unit {0}) × W → Prepared (List (CatalogEntry T))
  upserted catalog (err e, w) = (err (upsert_failed e), w)
  upserted catalog (ok u, w) = (ok catalog, w)

  abbrev pub catalog_fetched :
      Result E (List (CatalogEntry T)) × W → Prepared (List (CatalogEntry T))
  catalog_fetched (err e, w) = (err (fetch_failed e), w)
  catalog_fetched (ok catalog, w) = upserted catalog (services.upsert_catalog catalog w)

  abbrev pub catalog_cached :
      Result E (List (CatalogEntry T)) → W → Prepared (List (CatalogEntry T))
  catalog_cached (err e) w = (err (read_failed e), w)
  catalog_cached (ok catalog) w =
      if flags.refresh_catalog || is_nil catalog
      then catalog_fetched (services.fetch_catalog w)
      else (ok catalog, w)

  -- The resolver, and the plan of a full refresh.
  pub planned_targets :
      (String → String → Option Bool)
      → Config
      → List (CatalogEntry T)
      → Result (PrepareError E) (List Target)
  planned_targets glob cfg catalog = elim (resolve glob cfg catalog flags.only) [
    | err e ↦ err (unresolved e)
    | ok targets ↦ elim (plan flags.full_refresh_all flags.full_refresh_ids targets) [
      | err e ↦ err (unplanned e)
      | ok ts ↦ ok ts
    ]
  ]

  abbrev pub targeted :
      (String → String → Option Bool)
      → Config
      → Prepared (List (CatalogEntry T))
      → Prepared (List Target)
  targeted glob cfg (err e, w) = (err e, w)
  targeted glob cfg (ok catalog, w) = (planned_targets glob cfg catalog, w)

  abbrev pub swept :
      (String → String → Option Bool) → Config → Result E (Unit {0}) × W → Prepared (List Target)
  swept glob cfg (err e, w) = (err (sweep_failed e), w)
  swept glob cfg (ok u, w) = targeted glob cfg (catalog_cached (services.read_catalog w) w)

  -- `Run` until it starts the goroutines, or returns for a dry run.
  pub prepare_targets : (String → String → Option Bool) → Config → W → Prepared (List Target)
  unfolding planned_targets
  prepare_targets glob cfg w =
      swept glob cfg (if flags.dry_run then (ok tt, w) else services.sweep w)
