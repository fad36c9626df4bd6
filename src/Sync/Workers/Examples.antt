-- ===== src/Sync/Workers/Examples.antt =====
-- Two targets and one worker: the first fails, and the second is not tried.
use mathlib.Core.List.{Perm}
use civic_soda_quack.Prelude.{
  ℕ, ◌+◌, ◌*◌, ◌≡◌, ◌≤◌, ◌↔◌, ◌⊎◌, refl, true, none, List, [], ◌∷◌, All, arith, length,
}
use civic_soda_quack.Sync.Incremental.{done, failed, aborted}
use civic_soda_quack.Sync.Workers.{
  Group, planned, counted, verdict, Work, launch, skip, enter, settle, Runs, begin, work,
}
use civic_soda_quack.Sync.Workers.Steps.{Finished, run_ends}
use civic_soda_quack.Sync.Workers.Settles.{Accounts, run-Accounts, targets_settled, run_settles}
use civic_soda_quack.Sync.Workers.Aborts.{abort_bounds_failures}

abbrev two : List ℕ
two = 1 ∷ 2 ∷ []

abbrev last : Group ℕ
last = record {
  waiting = [];
  started = [];
  syncing = [];
  settled = (2, aborted) ∷ (1, failed) ∷ [];
  ok_count = 0;
  failed_count = 1;
  aborted_count = 1;
  cancelled = true;
}

aborted_run : Runs 1 true (planned two) 5 last
unfolding counted
aborted_run =
    work
      (work
        (work (work (work begin (launch 1 (2 ∷ []) refl (omega arith))) (enter [] [] 1 refl refl))
          (settle [] [] 1 failed refl))
        (launch 2 [] refl (omega arith)))
      (skip [] [] 2 refl refl)

run_ends_example : (5 ≤ 3 * length two) × (Finished last ⊎ ((h : Group ℕ) × Work 1 true last h))
run_ends_example = run_ends 1 true two 5 last (omega arith) aborted_run

run_settles_example :
    Perm (targets_settled last) two
    × (last.ok_count + (last.failed_count + last.aborted_count) ≡ length two)
    × ((verdict last ≡ none) ↔ All (λ p. p.1 ≡ done) last.settled)
run_settles_example = run_settles 1 true two 5 last aborted_run (refl, refl, refl)

abort_bounds_failures_example : last.failed_count ≤ 1
abort_bounds_failures_example = abort_bounds_failures 1 two 5 last aborted_run

run-Accounts_example : Accounts two 1 last
run-Accounts_example = run-Accounts two 1 true 5 last aborted_run
