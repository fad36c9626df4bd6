-- ===== src/Sync/FullReplace.antt =====
-- A load that replaces a whole table: `FullReplaceStrategy.Sync` and `streamInto` of
-- internal/sync/strategy.go.
pub mod Cleans
pub mod Examples
use Prim.Native.String
use civic_soda_quack.Prelude.{ℕ, ◌+◌, String, none, some, List, length, Result, ok, err}
use civic_soda_quack.Prelude.Int.{pos_part}
use civic_soda_quack.Config.{Effective}
use civic_soda_quack.Socrata.{Row}
use civic_soda_quack.Socrata.Stream.{
  Query, Request, Ending, finished, stopped, out_of_fuel, stream_rows_ctx,
}
use civic_soda_quack.Duckdb.Schema.{Column, TableSchema, build_schema}
use civic_soda_quack.Sync.{Target}
use civic_soda_quack.Sync.Incremental.{
  done, failed, fetch_metadata, create_staging, swapping, Calls, Written, fail_result,
  filter_columns, early_end,
}

module _ {F T E W : Type 0} (calls : Calls F T E W) where
  -- The world and `rowsWritten`.
  abbrev pub Loading : Type 0
  Loading = W × ℕ

  pub load_page : Query → Loading → Result E (List (Row F)) × Loading
  load_page q (w, rows) = let (r, w') = calls.get_page q w in (r, (w', rows))

  page_inserted : List (Row F) → ℕ → Result E (Unit {0}) × W → Result E (Unit {0}) × Loading
  page_inserted page rows (err e, w) = (err e, (w, rows))
  page_inserted page rows (ok u, w) = (ok tt, (w, rows + length page))

  insert_page : TableSchema → List (Row F) → Loading → Result E (Unit {0}) × Loading
  insert_page schema page (w, rows) = page_inserted page rows (calls.insert_staging schema page w)

  -- What `streamInto` asks for; there is no projection.
  pub plain_request : Effective → Request
  plain_request eff = record {
    order_by = eff.order_by;
    where_clause = eff.where_clause;
    select = "";
    limit = pos_part eff.limit;
    batch = calls.client_batch_size;
  }

  module _ (run_id : String) (fuel : ℕ) (t : Target) where
    open t use {id, effective as eff}

    pub staging_name : String
    staging_name = String.◌++◌ eff.table (String.◌++◌ "_" run_id)

    replaced : ℕ → Result E (Unit {0}) × W → Written calls
    replaced rows (ok u, w) =
        (some (record { status = done; rows_written = rows; error = none }), w)
    replaced rows (err e, w) =
        (some (fail_result failed (swapping e)), calls.drop_staging_table staging_name w)

    loaded : Ending E × Loading → Written calls
    loaded (finished, (w, rows)) = replaced rows (calls.swap staging_name eff.table "" w)
    loaded (stopped e, (w, rows)) = early_end calls e (calls.drop_staging_table staging_name w)
    loaded (out_of_fuel, (w, rows)) = (none, w)

    table_created : TableSchema → Result E (Unit {0}) × W → Written calls
    table_created schema (err e, w) = (some (fail_result failed (create_staging e)), w)
    table_created schema (ok u, w) = loaded (
        stream_rows_ctx (λ s. calls.cancelled s.0) load_page (insert_page schema)
          (plain_request eff) fuel (w, 0))

    columns_described : Result E (List Column) × W → Written calls
    columns_described (err e, w) = (some (fail_result failed (fetch_metadata e)), w)
    columns_described (ok cols, w) =
        let schema = build_schema staging_name (filter_columns cols eff.skip_columns) in
        table_created schema (calls.create_staging_table schema w)

    -- `FullReplaceStrategy.Sync`
    pub full_replace : W → Written calls
    full_replace w = columns_described (calls.metadata id w)
