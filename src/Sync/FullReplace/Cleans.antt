-- ===== src/Sync/FullReplace/Cleans.antt =====
-- What a replacing load leaves of its staging table.
use civic_soda_quack.Prelude.{ℕ, refl, inl, inr, String, List, Result, ok, err}
use civic_soda_quack.Socrata.Stream.{Ending, finished, stopped, out_of_fuel}
use civic_soda_quack.Duckdb.Schema.{Column, TableSchema}
use civic_soda_quack.Sync.{Target}
use civic_soda_quack.Sync.Incremental.{fail_result, Calls}
use civic_soda_quack.Sync.Incremental.Clean.{LeavesClean, early_end-LeavesClean}
use civic_soda_quack.Sync.FullReplace.{
  Loading, staging_name, replaced, loaded, table_created, columns_described, full_replace,
}

module _ {F T E W : Type 0} (calls : Calls F T E W) (run_id : String) (fuel : ℕ) (t : Target) where
  abbrev own_staging : String
  own_staging = staging_name calls run_id fuel t

  replaced-LeavesClean :
      (rows : ℕ) (p : Result E (Unit {0}) × W)
      → LeavesClean calls own_staging (replaced calls run_id fuel t rows p)
  unfolding replaced
  replaced-LeavesClean rows (ok u, w) = inl refl
  replaced-LeavesClean rows (err e, w) = inr (inr (w, refl))

  loaded-LeavesClean :
      (x : Ending E × Loading calls) → LeavesClean calls own_staging (loaded calls run_id fuel t x)
  unfolding loaded
  loaded-LeavesClean (finished, (w, rows)) = replaced-LeavesClean rows _
  loaded-LeavesClean (stopped e, (w, rows)) = early_end-LeavesClean calls own_staging e w
  loaded-LeavesClean (out_of_fuel, (w, rows)) = tt

  table_created-LeavesClean :
      (schema : TableSchema) (p : Result E (Unit {0}) × W)
      → LeavesClean calls own_staging (table_created calls run_id fuel t schema p)
  unfolding table_created fail_result
  table_created-LeavesClean schema (err e, w) = inr (inl tt)
  table_created-LeavesClean schema (ok u, w) = loaded-LeavesClean _

  columns_described-LeavesClean :
      (p : Result E (List Column) × W)
      → LeavesClean calls own_staging (columns_described calls run_id fuel t p)
  unfolding columns_described fail_result
  columns_described-LeavesClean (err e, w) = inr (inl tt)
  columns_described-LeavesClean (ok cols, w) = table_created-LeavesClean _ _

  -- Where a replacing load has a result, it is the good one, or the load failed before there was a
  -- staging table, or dropping the staging table was the last thing done.
  pub full_replace-LeavesClean :
      (w : W)
      → LeavesClean calls (staging_name calls run_id fuel t) (full_replace calls run_id fuel t w)
  unfolding full_replace
  full_replace-LeavesClean w = columns_described-LeavesClean _
