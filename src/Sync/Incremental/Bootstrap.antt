-- ===== src/Sync/Incremental/Bootstrap.antt =====
-- A full load: `bootstrap` of internal/sync/incremental.go.
pub mod Keeps
pub mod Cleans
use Prim.Native.String
use civic_soda_quack.Prelude.{
  ℕ, zero, suc, ◌+◌, ◌%◌, String, Bool, true, false, ◌&&◌, ◌||◌, not, Option, none, some, List, [],
  ◌∷◌, length, any, Result, ok, err, ltb, ◌==◌, str_eq, if◌then◌else◌,
}
use civic_soda_quack.Prelude.Int.{pos_part}
use civic_soda_quack.Socrata.{Row}
use civic_soda_quack.Socrata.Stream.{Ending, finished, stopped, out_of_fuel, stream_rows_ctx}
use civic_soda_quack.Duckdb.Schema.{
  Column, TableSchema, build_schema, build_schema_with_socrata_id, listing,
}
use civic_soda_quack.Duckdb.Diff.{SchemaDiff, diff_columns}
use civic_soda_quack.Sync.{Target}
use civic_soda_quack.Sync.Incremental.{
  DatasetState, Status, done, failed, aborted, SyncError, read_state, check_key, fetch_metadata,
  create_staging, streaming, swapping, diffing, write_state, drifted, DatasetResult, Calls,
  fail_result, filter_columns, hwm_column_or_default, Progress, delta_where, delta_order,
  checkpoint_due, Streaming, Written, page_beside, early_end, counted, request,
}

module _ {F T E W : Type 0} (calls : Calls F T E W) where
  bootstrap_inserted :
      String
      → List (Row F)
      → Progress T
      → Result E (Unit {0}) × W
      → Result E (Unit {0}) × Streaming calls
  bootstrap_inserted column page p (err e, w) = (err e, (w, p))
  bootstrap_inserted column page p (ok u, w) = (ok tt, (w, counted calls column page p))

  bootstrap_handler :
      String → TableSchema → List (Row F) → Streaming calls → Result E (Unit {0}) × Streaming calls
  bootstrap_handler column schema page (w, p) =
      bootstrap_inserted column page p (calls.insert_staging schema page w)

  module _ (run_id : String) (fuel : ℕ) (t : Target) where
    open t use {id, effective as eff}

    pub staged : String
    staged = String.◌++◌ eff.table (String.◌++◌ "_" run_id)

    bootstrap_saved : ℕ → Result E (Unit {0}) × W → Written calls
    bootstrap_saved rows (ok u, w) =
        (some (record { status = done; rows_written = rows; error = none }), w)
    bootstrap_saved rows (err e, w) =
        (some (record { status = done; rows_written = rows; error = some (write_state e) }), w)

    bootstrap_swapped : String → Progress T → Result E (Unit {0}) × W → Written calls
    bootstrap_swapped column p (err e, w) =
        (some (fail_result failed (swapping e)), calls.drop_staging_table staged w)
    bootstrap_swapped column p (ok u, w) = bootstrap_saved p.rows (
        calls.upsert_dataset_state
          (record {
            dataset_id = id;
            hwm_updated_at = p.max_hwm;
            last_full_replace_at = some (calls.now w);
            last_run_id = run_id;
            hwm_column = column;
          })
          w)

    bootstrap_streamed : String → TableSchema → Ending E × Streaming calls → Written calls
    bootstrap_streamed column schema (finished, (w, p)) =
        bootstrap_swapped column p (calls.swap staged eff.table schema.primary_key w)
    bootstrap_streamed column schema (stopped e, (w, p)) =
        early_end calls e (calls.drop_staging_table staged w)
    bootstrap_streamed column schema (out_of_fuel, (w, p)) = (none, w)

    bootstrap_created : String → TableSchema → Result E (Unit {0}) × W → Written calls
    bootstrap_created column schema (err e, w) = (some (fail_result failed (create_staging e)), w)
    bootstrap_created column schema (ok u, w) = bootstrap_streamed column schema (
        stream_rows_ctx (λ s. calls.cancelled s.0) (page_beside calls)
          (bootstrap_handler column schema) (request calls eff eff.order_by eff.where_clause) fuel
          (w, record { rows = 0; max_hwm = none; pages = 0 }))

    bootstrap_described : Result E (List Column) × W → Written calls
    bootstrap_described (err e, w) = (some (fail_result failed (fetch_metadata e)), w)
    bootstrap_described (ok cols, w) =
        let schema = build_schema_with_socrata_id staged (filter_columns cols eff.skip_columns) in
        bootstrap_created (hwm_column_or_default eff.hwm_column) schema
          (calls.create_staging_table schema w)

    -- `bootstrap`
    pub bootstrap : W → Written calls
    bootstrap w = bootstrap_described (calls.metadata id w)
