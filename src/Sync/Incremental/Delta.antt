-- ===== src/Sync/Incremental/Delta.antt =====
-- A delta above the stored mark: `delta` of internal/sync/incremental.go.
pub mod Advance
pub mod Keeps
pub mod Order
use Prim.Native.String
use civic_soda_quack.Prelude.{
  ℕ, zero, suc, ◌+◌, ◌%◌, String, Bool, true, false, ◌&&◌, ◌||◌, not, Option, none, some, List, [],
  ◌∷◌, length, any, Result, ok, err, ltb, ◌==◌, str_eq, if◌then◌else◌,
}
use civic_soda_quack.Prelude.Int.{pos_part}
use civic_soda_quack.Socrata.{Row}
use civic_soda_quack.Socrata.Stream.{Ending, finished, stopped, out_of_fuel, stream_rows_ctx}
use civic_soda_quack.Duckdb.Schema.{
  Column, TableSchema, build_schema, build_schema_with_socrata_id, listing,
}
use civic_soda_quack.Duckdb.Diff.{SchemaDiff, diff_columns}
use civic_soda_quack.Sync.{Target}
use civic_soda_quack.Sync.Incremental.{
  DatasetState, Status, done, failed, aborted, SyncError, read_state, check_key, fetch_metadata,
  create_staging, streaming, swapping, diffing, write_state, drifted, DatasetResult, Calls,
  fail_result, filter_columns, hwm_column_or_default, Progress, delta_where, delta_order,
  checkpoint_due, Streaming, Written, page_beside, early_end, counted, request,
}

module _ {F T E W : Type 0} (calls : Calls F T E W) where
  module _ (run_id : String) (fuel : ℕ) (t : Target) where
    open t use {id, effective as eff}

    -- The clause for the high-water mark.
    pub hwm_clause : String → Option T → String
    hwm_clause column none = ""
    hwm_clause column (some m) =
        String.◌++◌ column (String.◌++◌ " > '" (String.◌++◌ (calls.format_time m) "'"))

    module _ (state : DatasetState T) where
      -- The state that a checkpoint writes, and the one at the end.
      marked : String → Option T → DatasetState T
      marked column m = record {
        dataset_id = id;
        hwm_updated_at = m;
        last_full_replace_at = state.last_full_replace_at;
        last_run_id = run_id;
        hwm_column = column;
      }

      delta_upserted :
          String
          → List (Row F)
          → Progress T
          → Result E (Unit {0}) × W
          → Result E (Unit {0}) × Streaming calls
      delta_upserted column page p (err e, w) = (err e, (w, p))
      delta_upserted column page p (ok u, w) =
          let p' = counted calls column page p in
          if checkpoint_due (pos_part eff.checkpoint_every_n_pages) p'.pages
          then (ok tt, ((calls.upsert_dataset_state (marked column p'.max_hwm) w).1, p'))
          else (ok tt, (w, p'))

      delta_handler :
          String
          → TableSchema
          → List (Row F)
          → Streaming calls
          → Result E (Unit {0}) × Streaming calls
      delta_handler column schema page (w, p) =
          delta_upserted column page p (calls.upsert_main schema page w)

      delta_saved : ℕ → Result E (Unit {0}) × W → Written calls
      delta_saved rows (ok u, w) =
          (some (record { status = done; rows_written = rows; error = none }), w)
      delta_saved rows (err e, w) =
          (some (record { status = done; rows_written = rows; error = some (write_state e) }), w)

      delta_streamed : Ending E × Streaming calls → Written calls
      delta_streamed (finished, (w, p)) = delta_saved p.rows (
          calls.upsert_dataset_state
            (record state { hwm_updated_at = p.max_hwm; last_run_id = run_id }) w)
      delta_streamed (stopped e, (w, p)) = early_end calls e w
      delta_streamed (out_of_fuel, (w, p)) = (none, w)

      delta_compared : String → TableSchema → List SchemaDiff → W → Written calls
      delta_compared column schema (d ∷ ds) w = (some (fail_result failed (drifted (d ∷ ds))), w)
      delta_compared column schema [] w = delta_streamed (
          stream_rows_ctx (λ s. calls.cancelled s.0) (page_beside calls)
            (delta_handler column schema)
            (request calls eff (delta_order column eff.order_by)
              (delta_where (hwm_clause column state.hwm_updated_at) eff.where_clause))
            fuel (w, record { rows = 0; max_hwm = state.hwm_updated_at; pages = 0 }))

      delta_listed : String → TableSchema → Result E (List (String × String)) → W → Written calls
      delta_listed column schema (err e) w = (some (fail_result failed (diffing e)), w)
      delta_listed column schema (ok live) w =
          delta_compared column schema (diff_columns calls.upper (listing schema.columns) live) w

      delta_described : Result E (List Column) × W → Written calls
      delta_described (err e, w) = (some (fail_result failed (fetch_metadata e)), w)
      delta_described (ok cols, w) =
          delta_listed (hwm_column_or_default state.hwm_column)
            (build_schema_with_socrata_id eff.table (filter_columns cols eff.skip_columns))
            (calls.live_columns eff.table w) w

      -- `delta`
      pub delta : W → Written calls
      delta w = delta_described (calls.metadata id w)
