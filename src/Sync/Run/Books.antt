-- ===== src/Sync/Run/Books.antt =====
-- What `runOne` and `recordAborted` leave in the table of runs.
use civic_soda_quack.Prelude.{
  ℕ, String, ◌≡◌, refl, ◌⊎◌, inl, inr, true, List, [], ◌∷◌, ◌++◌, Result, ok, err,
}
use civic_soda_quack.Duckdb.Runs.{SyncRun, RunsError, started_run, start_sync_run, finished_run}
use civic_soda_quack.Duckdb.Runs.Rows.{
  Started, start_sync_run-Started, Finished, finish_sync_run-Finished,
}
use civic_soda_quack.Sync.{Target}
use civic_soda_quack.Sync.Incremental.{failed, DatasetResult}
use civic_soda_quack.Sync.Run.{
  Faults, RunOneResult, Texts, status_text, first_row, with_finish, synced, opened, run_one,
}

module _ {E T D : Type 0} (texts : Texts E T D) (faults : Faults E) (run_id : String)
    (t : Target) where
  -- The row of a finished dataset.
  abbrev pub last_row : T → T → DatasetResult E → SyncRun T D
  last_row started now res =
      finished_run texts.since (status_text res.status) res.rows_written
        (texts.error_text res.error) now (first_row texts faults run_id t started)

  -- The strategy did not run, the dataset failed, and there is at most a row that is still running.
  abbrev pub NotRun :
      {X : Type 0} → T → List (SyncRun T D) × X → RunOneResult E × (List (SyncRun T D) × X) → Type 0
  NotRun started (rows, x) (res, (rows', x')) =
      (res.status ≡ failed)
      × (x' ≡ x)
      × ((rows' ≡ rows) ⊎ (rows' ≡ rows ++ (first_row texts faults run_id t started ∷ [])))

  -- It ran once, its status is the result's, and there is one more row, that says so or is running.
  abbrev pub Ran :
      {X : Type 0}
      → (X → DatasetResult E × X)
      → T
      → T
      → List (SyncRun T D) × X
      → RunOneResult E × (List (SyncRun T D) × X)
      → Type 0
  Ran sync started now (rows, x) (res, (rows', x')) =
      (res.status ≡ (sync x).0.status)
      × (x' ≡ (sync x).1)
      × ((rows' ≡ rows ++ (last_row started now (sync x).0 ∷ []))
          ⊎ (rows' ≡ rows ++ (first_row texts faults run_id t started ∷ [])))

  module _ {X : Type 0} (sync : X → DatasetResult E × X) (started now : T)
      (rows : List (SyncRun T D)) (x : X) where
    Outcome : RunOneResult E × (List (SyncRun T D) × X) → Type 0
    Outcome out = NotRun started (rows, x) out ⊎ Ran sync started now (rows, x) out

    with_finish-Ran :
        (out : Result (RunsError E) (Unit {0}) × List (SyncRun T D))
        → Finished
            (first_row texts faults run_id t started)
            (last_row started now (sync x).0)
            rows
            out
        → Ran sync started now
            (rows, x)
            (with_finish texts faults run_id t (sync x).0 out (sync x).1)
    with_finish-Ran (err e, rows') h = (refl, refl, inr h)
    with_finish-Ran (ok u, rows') h = (refl, refl, inl h)

    opened-Outcome :
        (out : Result (RunsError E) ℕ × List (SyncRun T D))
        → Started (first_row texts faults run_id t started) rows out
        → Outcome (opened texts faults run_id t sync now x out)
    unfolding Outcome opened synced
    opened-Outcome (err e, rows') h = inl (refl, refl, h)
    opened-Outcome (ok i, rows') (at_end, e) =
        rw (at_end, e)
          (inr (
            with_finish-Ran _ (
              finish_sync_run-Finished texts.since faults.started faults.finish
                (status_text (sync x).0.status) (sync x).0.rows_written
                (texts.error_text (sync x).0.error) now (first_row texts faults run_id t started)
                rows)))

    -- Where the SQL equality of times is reflexive, one goroutine adds at most one row to the
    -- table of runs and changes no other. Either the strategy did not run, the result is failed
    -- and a row may be left running; or it ran once, the result has its status, and the row has
    -- that status too or is left running.
    pub run_one-Books :
        texts.same_time started started ≡ true
        → NotRun started (rows, x) (run_one texts faults run_id t sync started now (rows, x))
          ⊎ Ran sync started now
              (rows, x)
              (run_one texts faults run_id t sync started now (rows, x))
    unfolding run_one Outcome started_run
    run_one-Books h =
        opened-Outcome
          (start_sync_run texts.same_time faults.insert faults.rowid
            (first_row texts faults run_id t started) rows)
          (start_sync_run-Started texts.same_time faults.insert faults.rowid
            (first_row texts faults run_id t started) rows h)
