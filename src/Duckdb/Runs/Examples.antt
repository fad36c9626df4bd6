-- ===== src/Duckdb/Runs/Examples.antt =====
-- One run, from its start to its end.
use civic_soda_quack.Prelude.{ℕ, ◌≡◌, refl, true, Option, none, [], ◌∷◌, ok}
use civic_soda_quack.Duckdb.Runs.{
  SyncRun, started_run, start_sync_run, finish_sync_run, incomplete_sync_run_count,
}

abbrev fresh : SyncRun ℕ ℕ
fresh = started_run "r1" "a" "parks" "h" 1

abbrev no_fault : Option ℕ
no_fault = none

starts : start_sync_run (λ a b. true) no_fault no_fault fresh [] ≡ (ok 0, fresh ∷ [])
unfolding start_sync_run started_run
starts = refl

finishes :
    incomplete_sync_run_count
      (finish_sync_run (λ a b. 4) no_fault no_fault 0 "ok" 3 "" 5 (fresh ∷ [])).1
    ≡ 0
unfolding finish_sync_run incomplete_sync_run_count
finishes = refl
