-- ===== src/Sync/Incremental/Choice.antt =====
-- The choice between the two: `Sync` and `shouldBootstrap` of internal/sync/incremental.go.
pub mod Mode
use civic_soda_quack.Prelude.{
  ℕ, String, Bool, true, false, not, Option, none, some, Result, ok, err, str_eq, if◌then◌else◌,
}
use civic_soda_quack.Sync.{Target}
use civic_soda_quack.Sync.Incremental.{
  DatasetState, failed, SyncError, read_state, check_key, Calls, fail_result, Written,
}
use civic_soda_quack.Sync.Incremental.Bootstrap.{bootstrap}
use civic_soda_quack.Sync.Incremental.Delta.{delta}

module _ {F T E W : Type 0} (calls : Calls F T E W) where
  module _ (run_id : String) (fuel : ℕ) (t : Target) where
    open t use {id, effective as eff}

    check_bootstrap : Result E Bool → Result (SyncError E) Bool
    check_bootstrap (err e) = err (check_key e)
    check_bootstrap (ok has) = ok (not has)

    state_bootstrap : Option (DatasetState T) → W → Result (SyncError E) Bool
    state_bootstrap none w = ok true
    state_bootstrap (some state) w = check_bootstrap (calls.has_socrata_id eff.table w)

    -- `shouldBootstrap`
    pub should_bootstrap : Option (DatasetState T) → W → Result (SyncError E) Bool
    should_bootstrap state w =
        if str_eq eff.mode "full_replace" then ok true else state_bootstrap state w

    -- A delta is only reached with a state.
    chosen_strategy : Option (DatasetState T) → Result (SyncError E) Bool → W → Written calls
    chosen_strategy state (err e) w = (some (fail_result failed e), w)
    chosen_strategy state (ok true) w = bootstrap calls run_id fuel t w
    chosen_strategy none (ok false) w = bootstrap calls run_id fuel t w
    chosen_strategy (some state) (ok false) w = delta calls run_id fuel t state w

    with_state : Result E (Option (DatasetState T)) → W → Written calls
    with_state (err e) w = (some (fail_result failed (read_state e)), w)
    with_state (ok state) w = chosen_strategy state (should_bootstrap state w) w

    -- `IncrementalStrategy.Sync`
    pub sync : W → Written calls
    sync w = with_state (calls.read_dataset_state id w) w
