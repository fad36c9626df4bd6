-- ===== src/Sync/Incremental/Delta/Order.antt =====
-- The order that a delta asks for.
use civic_soda_quack.Prelude.{◌≡◌, String, Bool, ok, eq_iff, arith, subst, sym}
use civic_soda_quack.Config.{Config, effective_for}
use civic_soda_quack.Config.Load.{load}
use civic_soda_quack.Config.Load.Loaded.{load_iff}
use civic_soda_quack.Config.Merge.{IsRunnable, effective_for-IsRunnable}
use civic_soda_quack.Sync.Incremental.{delta_order}

-- Under every configuration that loads, a delta of any dataset asks for its rows in the order of
-- the effective configuration, whatever the column of the high-water mark is.
pub delta_order-effective_for :
    (had_env_ref : Bool) (decoded c : Config) (id column : String)
    → load had_env_ref decoded ≡ ok c
    → delta_order column (effective_for c id).order_by ≡ (effective_for c id).order_by
unfolding delta_order
delta_order-effective_for env decoded c id column h =
    let runnable : IsRunnable (effective_for c id) =
      subst (λ d. IsRunnable (effective_for d id)) (sym ((load_iff env decoded c).0 h).0)
        (effective_for-IsRunnable decoded id) in
    ground (arith, eq_iff (effective_for c id).order_by "", runnable.ordered)
