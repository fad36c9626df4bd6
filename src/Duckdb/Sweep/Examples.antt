-- ===== src/Duckdb/Sweep/Examples.antt =====
-- A killed run left a table and a row; one earlier run is finished.
use civic_soda_quack.Prelude.{ℕ, String, ◌≡◌, refl, Option, none, some, [], ◌∷◌}
use civic_soda_quack.Duckdb.Runs.{SyncRun, incomplete_sync_run_count}
use civic_soda_quack.Duckdb.Sweep.{Base, sweep_abandoned}
use civic_soda_quack.Duckdb.Sweep.Clears.{Swept, sweep_abandoned-Swept}

abbrev run_of : Option ℕ → String → SyncRun ℕ ℕ
run_of finished status = record {
  run_id = status;
  dataset_id = "a";
  table_name = "parks";
  config_hash = "h";
  started_at = 1;
  finished_at = finished;
  status = status;
  rows_written = none;
  error = none;
  duration_ms = none;
}

abbrev base : Base ℕ ℕ
base = record {
  staging = ("parks_r2", some 40) ∷ [];
  runs = run_of (some 2) "ok" ∷ run_of none "running" ∷ [];
}

abbrev no_fault : Option ℕ
no_fault = none

swept_rows :
    (sweep_abandoned no_fault no_fault no_fault (λ name. no_fault) 9 base).0.0.abandoned_runs ≡ 1
unfolding sweep_abandoned incomplete_sync_run_count
swept_rows = refl

uncounted_rows :
    (sweep_abandoned no_fault (some 1) no_fault (λ name. no_fault) 9 base).0.0.abandoned_runs ≡ 0
unfolding sweep_abandoned
uncounted_rows = refl

sweep_abandoned-Swept_example :
    Swept no_fault base (sweep_abandoned no_fault no_fault no_fault (λ name. no_fault) 9 base)
sweep_abandoned-Swept_example =
    sweep_abandoned-Swept no_fault no_fault no_fault (λ name. no_fault) 9 base
