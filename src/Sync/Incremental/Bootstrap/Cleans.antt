-- ===== src/Sync/Incremental/Bootstrap/Cleans.antt =====
-- What a full load leaves of its staging table.
use civic_soda_quack.Prelude.{ℕ, refl, inl, inr, String, List, Result, ok, err}
use civic_soda_quack.Socrata.Stream.{Ending, finished, stopped, out_of_fuel}
use civic_soda_quack.Duckdb.Schema.{Column, TableSchema}
use civic_soda_quack.Sync.{Target}
use civic_soda_quack.Sync.Incremental.{fail_result, Calls, Progress, Streaming}
use civic_soda_quack.Sync.Incremental.Clean.{LeavesClean, early_end-LeavesClean}
use civic_soda_quack.Sync.Incremental.Bootstrap.{
  staged, bootstrap_saved, bootstrap_swapped, bootstrap_streamed, bootstrap_created,
  bootstrap_described, bootstrap,
}

module _ {F T E W : Type 0} (calls : Calls F T E W) (run_id : String) (fuel : ℕ) (t : Target) where
  abbrev name : String
  name = staged calls run_id fuel t

  saved-LeavesClean :
      (rows : ℕ) (p : Result E (Unit {0}) × W)
      → LeavesClean calls name (bootstrap_saved calls run_id fuel t rows p)
  unfolding bootstrap_saved
  saved-LeavesClean rows (ok u, w) = inl refl
  saved-LeavesClean rows (err e, w) = inl refl

  swapped-LeavesClean :
      (column : String) (pr : Progress T) (p : Result E (Unit {0}) × W)
      → LeavesClean calls name (bootstrap_swapped calls run_id fuel t column pr p)
  unfolding bootstrap_swapped
  swapped-LeavesClean column pr (ok u, w) = saved-LeavesClean pr.rows _
  swapped-LeavesClean column pr (err e, w) = inr (inr (w, refl))

  streamed-LeavesClean :
      (column : String) (schema : TableSchema) (x : Ending E × Streaming calls)
      → LeavesClean calls name (bootstrap_streamed calls run_id fuel t column schema x)
  unfolding bootstrap_streamed
  streamed-LeavesClean column schema (finished, (w, p)) = swapped-LeavesClean column p _
  streamed-LeavesClean column schema (stopped e, (w, p)) = early_end-LeavesClean calls name e w
  streamed-LeavesClean column schema (out_of_fuel, (w, p)) = tt

  created-LeavesClean :
      (column : String) (schema : TableSchema) (p : Result E (Unit {0}) × W)
      → LeavesClean calls name (bootstrap_created calls run_id fuel t column schema p)
  unfolding bootstrap_created fail_result
  created-LeavesClean column schema (err e, w) = inr (inl tt)
  created-LeavesClean column schema (ok u, w) = streamed-LeavesClean column schema _

  described-LeavesClean :
      (p : Result E (List Column) × W)
      → LeavesClean calls name (bootstrap_described calls run_id fuel t p)
  unfolding bootstrap_described fail_result
  described-LeavesClean (err e, w) = inr (inl tt)
  described-LeavesClean (ok cols, w) = created-LeavesClean _ _ _

  -- Where a full load has a result, it is the good one, or the load failed before there was a
  -- staging table, or dropping the staging table was the last thing done.
  pub bootstrap-LeavesClean :
      (w : W) → LeavesClean calls (staged calls run_id fuel t) (bootstrap calls run_id fuel t w)
  unfolding bootstrap
  bootstrap-LeavesClean w = described-LeavesClean _
