-- ===== src/Sync/Incremental/Choice/Mode.antt =====
-- When the mode alone decides.
use civic_soda_quack.Prelude.{ℕ, ◌≡◌, refl, String, Option, true, ok}
use civic_soda_quack.Sync.{Target}
use civic_soda_quack.Sync.Incremental.{Calls, DatasetState}
use civic_soda_quack.Sync.Incremental.Choice.{should_bootstrap}

pub should_bootstrap-full_replace :
    {F T E W : Type 0} (calls : Calls F T E W) (run_id : String) (fuel : ℕ) (t : Target)
    (state : Option (DatasetState T)) (w : W)
    → t.effective.mode ≡ "full_replace"
    → should_bootstrap calls run_id fuel t state w ≡ ok true
unfolding should_bootstrap
should_bootstrap-full_replace calls run_id fuel t state w h = rw h refl
