-- ===== src/Web/Jobs.antt =====
-- The downloads of internal/web/sync.go. A job is shared by pointer between the manager and the
-- goroutine that runs it: here the started jobs stand in a list, the newest first, which is the manager's
-- current one, and a change through the pointer is a change of its place. Subscribers, and the texts of
-- errors, are left out; `E` is an error of a call, `T` a time.
pub mod OneRunning
mod Examples
use civic_soda_quack.Prelude.{
  ℕ, zero, suc, ◌+◌, ◌≡◌, String, Bool, true, false, Option, none, some, List, [], ◌∷◌, ◌++◌, map,
  Result, ok, err, str_eq, if◌then◌else◌,
}
use civic_soda_quack.Sync.{Target}
use civic_soda_quack.Sync.Incremental.{DatasetResult}
use civic_soda_quack.Sync.Run.{status_text}

pub data JobState : Type 0 where
  job_running job_done job_failed job_stopped : JobState

pub record DatasetProgress : Type 0 where
  pub id : String
  pub table : String
  pub rows : ℕ
  pub state : String

pub record Job (T : Type 0) : Type 0 where
  pub portal : String
  pub alias : String
  pub mode : String
  pub state : JobState
  pub started : T
  pub ended : Option T
  pub rows : ℕ
  pub sets : List DatasetProgress

pub data StartError (E : Type 0) : Type 0 where
  not_enabled : StartError E
  already_running : StartError E
  no_datasets : E → StartError E

pub data JobError (E : Type 0) : Type 0 where
  locked not_opened not_closed not_refreshed run_failed : E → JobError E
  datasets_lost : ℕ → JobError E

abbrev pub is_running : JobState → Bool
is_running job_running = true
is_running job_done = false
is_running job_failed = false
is_running job_stopped = false

abbrev pub waiting_set : String → DatasetProgress
waiting_set id = record { id = id; table = ""; rows = 0; state = "waiting" }

-- A change of what `find` returns: the first set of the id, or else a new one at the end.
pub change_set :
    String → (DatasetProgress → DatasetProgress) → List DatasetProgress → List DatasetProgress
change_set id f [] = f (waiting_set id) ∷ []
change_set id f (d ∷ ds) =
    let rest = change_set id f ds in if str_eq d.id id then f d ∷ ds else d ∷ rest

pub sum_rows : List DatasetProgress → ℕ
sum_rows [] = 0
sum_rows (d ∷ ds) = d.rows + sum_rows ds

module _ {T : Type 0} where
  -- `webReporter.DatasetStart`
  pub dataset_start : Target → Job T → Job T
  unfolding change_set
  dataset_start t j = record j {
    sets = change_set t.id (λ d. record d { table = t.effective.table; state = "running" }) j.sets;
  }

  -- `webReporter.DatasetProgress`
  pub dataset_progress : Target → ℕ → Job T → Job T
  unfolding change_set sum_rows
  dataset_progress t rows j =
      let sets = change_set t.id (λ d. record d { rows = rows }) j.sets in
      record j { sets = sets; rows = sum_rows sets }

  -- `webReporter.DatasetDone`
  pub dataset_done : {E : Type 0} → Target → DatasetResult E → Job T → Job T
  unfolding change_set
  dataset_done t res j = record j {
    sets =
        change_set t.id (λ d. record d { rows = res.rows_written; state = status_text res.status })
          j.sets;
  }

  -- `finish`
  pub finish_job : JobState → T → Job T → Job T
  finish_job state now j = record j { state = state; ended = some now }

  abbrev pub current_running : List (Job T) → Bool
  current_running [] = false
  current_running (j ∷ js) = is_running j.state

  abbrev pub new_job : String → String → String → T → List String → Job T
  new_job portal alias mode now only = record {
    portal = portal;
    alias = alias;
    mode = mode;
    state = job_running;
    started = now;
    ended = none;
    rows = 0;
    sets = map waiting_set only;
  }

  -- `startSync`; `ids` is what `datasetIDsForMode` gives, and no ids for no mode.
  pub start_sync :
      {E : Type 0}
      → Bool
      → Result E (List String)
      → String
      → String
      → String
      → T
      → List (Job T)
      → Result (StartError E) (Job T) × List (Job T)
  start_sync enabled ids portal alias mode now jobs =
      if enabled
      then (if current_running jobs then (err already_running, jobs) else elim ids [
        | err e ↦ (err (no_datasets e), jobs)
        | ok only ↦
            (ok (new_job portal alias mode now only), new_job portal alias mode now only ∷ jobs)
      ])
      else (err not_enabled, jobs)

-- The end of `runSync` behind the run: whether the context is cancelled, the error of the run, and how
-- many datasets failed.
pub run_end : {E : Type 0} → Bool → Option E → ℕ → JobState × Option (JobError E)
run_end true run failures = (job_stopped, none)
run_end false (some e) failures = (job_failed, some (run_failed e))
run_end false none zero = (job_done, none)
run_end false none (suc n) = (job_failed, some (datasets_lost (suc n)))

abbrev pub refreshed :
    {E : Type 0} → Option E → Bool → Option E → ℕ → JobState × Option (JobError E)
refreshed (some e) cancelled none failures = (job_failed, some (not_refreshed e))
refreshed (some e) cancelled (some e') failures = run_end cancelled (some e') failures
refreshed none cancelled run failures = run_end cancelled run failures

-- `runSync`: the state it finishes with, from what its calls return.
pub run_sync :
    {E : Type 0}
    → (lock open_db close_db refresh : Option E) → (cancelled : Bool) → (run : Option E)
    → (failures : ℕ) → JobState × Option (JobError E)
unfolding run_end
run_sync (some e) open_db close_db refresh cancelled run failures = (job_failed, some (locked e))
run_sync none (some e) close_db refresh cancelled run failures = (job_failed, some (not_opened e))
run_sync none none (some e) refresh cancelled run failures = (job_failed, some (not_closed e))
run_sync none none none refresh cancelled run failures = refreshed refresh cancelled run failures

-- What happens to the jobs: a request to start one, a report of a running one, and its end.
pub data Happens (E : Type 0) {T : Type 0} (jobs : List (Job T)) : List (Job T) → Type 0 where
  start :
      (enabled : Bool) (ids : Result E (List String)) (portal alias mode : String) (now : T)
      → Happens E jobs (start_sync enabled ids portal alias mode now jobs).1
  begins :
      (before after : List (Job T)) (j : Job T) (t : Target)
      → jobs ≡ before ++ (j ∷ after)
      → is_running j.state ≡ true
      → Happens E jobs (before ++ (dataset_start t j ∷ after))
  progresses :
      (before after : List (Job T)) (j : Job T) (t : Target) (rows : ℕ)
      → jobs ≡ before ++ (j ∷ after)
      → is_running j.state ≡ true
      → Happens E jobs (before ++ (dataset_progress t rows j ∷ after))
  settles :
      (before after : List (Job T)) (j : Job T) (t : Target) (res : DatasetResult E)
      → jobs ≡ before ++ (j ∷ after)
      → is_running j.state ≡ true
      → Happens E jobs (before ++ (dataset_done t res j ∷ after))
  ends :
      (before after : List (Job T)) (j : Job T) (now : T) (lock open_db close_db refresh : Option E)
      (cancelled : Bool) (run : Option E) (failures : ℕ)
      → jobs ≡ before ++ (j ∷ after)
      → is_running j.state ≡ true
      → Happens E jobs (
          before
          ++ (finish_job (run_sync lock open_db close_db refresh cancelled run failures).0 now j
              ∷ after))

pub data History (E : Type 0) {T : Type 0} : List (Job T) → Type 0 where
  none_yet : History E []
  next : {js ks : List (Job T)} → History E js → Happens E js ks → History E ks
