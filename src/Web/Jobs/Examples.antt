-- ===== src/Web/Jobs/Examples.antt =====
-- A download that fails behind its first page, and one that is refused while it runs.
use civic_soda_quack.Prelude.{
  ℕ, String, ◌≡◌, refl, true, false, none, some, List, [], ◌∷◌, Result, ok, err,
}
use civic_soda_quack.Prelude.Int.{pos}
use civic_soda_quack.Sync.{Target}
use civic_soda_quack.Sync.Incremental.{failed, DatasetResult}
use civic_soda_quack.Web.Jobs.{
  Job, new_job, already_running, start_sync, dataset_progress, dataset_done, sum_rows, run_sync,
  finish_job, History, none_yet, next, start, progresses, ends,
}
use civic_soda_quack.Web.Jobs.OneRunning.{OneRunning, History-OneRunning}

abbrev parks : Target
parks = record {
  id = "a";
  name = "Parks";
  effective = record {
    dataset_id = "a";
    table = "parks";
    where_clause = "";
    order_by = ":id";
    batch_size = pos 5000;
    limit = pos 0;
    skip_columns = [];
    mode = "";
    hwm_column = "";
    checkpoint_every_n_pages = pos 0;
  };
}

abbrev job : Job ℕ
job = new_job "city" "city" "" 1 []

abbrev failure : DatasetResult ℕ
failure = record { status = failed; rows_written = 0; error = none }

abbrev no_ids : Result ℕ (List String)
no_ids = ok []

refused : start_sync true no_ids "city" "city" "" 2 (job ∷ []) ≡ (err already_running, job ∷ [])
unfolding start_sync
refused = refl

-- The total still counts the rows of a dataset that failed behind its last report.
stale_total : (dataset_done parks failure (dataset_progress parks 5000 job)).rows ≡ 5000
unfolding dataset_done dataset_progress
stale_total = refl

rows_of_sets : sum_rows (dataset_done parks failure (dataset_progress parks 5000 job)).sets ≡ 0
unfolding dataset_done dataset_progress sum_rows
rows_of_sets = refl

abbrev after : List (Job ℕ)
after =
    finish_job (run_sync {E = ℕ} none none none none false (some 3) 0).0 9
      (dataset_progress parks 5000 job)
    ∷ []

told : History ℕ after
unfolding start_sync dataset_progress
told =
    next
      (next (next none_yet (start true no_ids "city" "city" "" 1))
        (progresses [] [] job parks 5000 refl refl))
      (ends [] [] (dataset_progress parks 5000 job) 9 none none none none false (some 3) 0 refl
        refl)

History-OneRunning_example : OneRunning after
History-OneRunning_example = History-OneRunning ℕ after told
