-- ===== src/Sync/Incremental.antt =====
-- Bringing one dataset up to date: internal/sync/incremental.go, with `fail`, `filterColumns` and
-- `fetchMetadata` of strategy.go and `DatasetState` of internal/duckdb/dataset_state.go.
-- `W` is the world: the portal, the database and the context. `E` is an error and `T` a time.Time.
-- Progress reports and the times of a result are left out.
mod Examples
pub mod Marks
pub mod Stores
pub mod Clean
pub mod Bootstrap
pub mod Delta
pub mod Choice
use Prim.Native.String
use civic_soda_quack.Prelude.{
  ℕ, zero, suc, ◌+◌, ◌%◌, String, Bool, true, false, ◌&&◌, ◌||◌, not, Option, none, some, List, [],
  ◌∷◌, length, any, Result, ok, err, ltb, ◌==◌, str_eq, if◌then◌else◌,
}
use civic_soda_quack.Prelude.Int.{pos_part}
use civic_soda_quack.Prelude.Maps.{get}
use civic_soda_quack.Socrata.{Json, Row, text}
use civic_soda_quack.Socrata.Stream.{
  Query, Request, Ending, finished, stopped, out_of_fuel, stream_rows_ctx,
}
use civic_soda_quack.Duckdb.Schema.{
  Column, TableSchema, build_schema, build_schema_with_socrata_id, listing,
}
use civic_soda_quack.Duckdb.Diff.{SchemaDiff, diff_columns}
use civic_soda_quack.Config.{Effective}

pub record DatasetState (T : Type 0) : Type 0 where
  pub dataset_id : String
  pub hwm_updated_at : Option T
  pub last_full_replace_at : Option T
  pub last_run_id : String
  pub hwm_column : String

pub data Status : Type 0 where
  done failed aborted : Status

pub data SyncError (E : Type 0) : Type 0 where
  read_state check_key fetch_metadata create_staging streaming swapping diffing write_state :
      E → SyncError E
  drifted : List SchemaDiff → SyncError E

-- `DatasetResult`; `none` for the whole is a stream that ran out of fuel.
pub record DatasetResult (E : Type 0) : Type 0 where
  pub status : Status
  pub rows_written : ℕ
  pub error : Option (SyncError E)

-- What a strategy calls: the client, the writer and the context, and the library's part of a time.
pub record Calls (F T E W : Type 0) : Type 0 where
  pub client_batch_size : ℕ  -- `Client.BatchSize`
  pub cancelled : W → Option E
  pub get_page : Query → W → Result E (List (Row F)) × W
  pub metadata : String → W → Result E (List Column) × W
  pub read_dataset_state : String → W → Result E (Option (DatasetState T))
  pub has_socrata_id : String → W → Result E Bool
  pub live_columns : String → W → Result E (List (String × String))
  pub create_staging_table : TableSchema → W → Result E (Unit {0}) × W
  pub insert_staging : TableSchema → List (Row F) → W → Result E (Unit {0}) × W
  pub upsert_main : TableSchema → List (Row F) → W → Result E (Unit {0}) × W
  pub swap : String → String → String → W → Result E (Unit {0}) × W
  pub drop_staging_table : String → W → W
  pub upsert_dataset_state : DatasetState T → W → Result E (Unit {0}) × W
  pub now : W → T
  pub instant : T → ℕ
  pub parse_time : String → String → Option T
  pub format_time : T → String
  pub upper : String → String

unfoldable pub fail_result : {E : Type 0} → Status → SyncError E → DatasetResult E
fail_result status e = record { status = status; rows_written = 0; error = some e }

-- `filterColumns`
pub filter_columns : List Column → List String → List Column
filter_columns [] skip = []
filter_columns (c ∷ cols) skip =
    let rest = filter_columns cols skip in if any (str_eq c.field_name) skip then rest else c ∷ rest

-- The default of the high-water mark's column.
pub hwm_column_or_default : String → String
hwm_column_or_default s = if str_eq s "" then ":updated_at" else s

abbrev hwm_layouts : List String
hwm_layouts =
    "2006-01-02T15:04:05.000" ∷ "2006-01-02T15:04:05" ∷ "2006-01-02T15:04:05.999999999Z07:00"
    ∷ "2006-01-02T15:04:05Z07:00" ∷ []

-- The variables of a stream's handler: `rowsWritten`, `maxHWM` and `pageIdx`.
pub record Progress (T : Type 0) : Type 0 where
  pub rows : ℕ
  pub max_hwm : Option T
  pub pages : ℕ

-- `$where` of a delta, from the clause for the high-water mark and the configured filter.
pub delta_where : String → String → String
delta_where mark base =
    if str_eq base ""
    then mark
    else if str_eq mark ""
    then base
    else String.◌++◌ "(" (String.◌++◌ mark (String.◌++◌ ") AND (" (String.◌++◌ base ")")))

-- `$order` of a delta.
pub delta_order : String → String → String
delta_order column order_by = if str_eq order_by "" then String.◌++◌ column ",:id" else order_by

-- `n > 0 && pageIdx%n == 0`
pub checkpoint_due : ℕ → ℕ → Bool
checkpoint_due n pages = ltb 0 n && pages % n == 0

module _ {F T E W : Type 0} (calls : Calls F T E W) where
  open calls use {parse_time, instant}

  parse_layouts : List String → String → Option T
  parse_layouts [] s = none
  parse_layouts (layout ∷ layouts) s = elim (parse_time layout s) [
    | some t ↦ some t
    | none ↦ parse_layouts layouts s
  ]

  hwm_of : Option (Json F) → Option T
  hwm_of (some (text s)) = if str_eq s "" then none else parse_layouts hwm_layouts s
  hwm_of _ = none

  -- `extractRowHWM`
  pub extract_row_hwm : Row F → String → Option T
  extract_row_hwm row column = hwm_of (get column row)

  -- `if maxHWM == nil || t.After(*maxHWM) { maxHWM = t }`
  pub later_of : Option T → Option T → Option T
  later_of m none = m
  later_of none (some t) = some t
  later_of (some m) (some t) = if ltb (instant m) (instant t) then some t else some m

  -- The loop over the rows of a page.
  pub newest : String → Option T → List (Row F) → Option T
  newest column m [] = m
  newest column m (row ∷ rows) = newest column (later_of m (extract_row_hwm row column)) rows

  abbrev pub Streaming : Type 0
  Streaming = W × Progress T

  -- The page and the context seen beside the handler's variables.
  pub page_beside : Query → Streaming → Result E (List (Row F)) × Streaming
  page_beside q (w, p) = let (r, w') = calls.get_page q w in (r, (w', p))

  abbrev pub Written : Type 0
  Written = Option (DatasetResult E) × W

  -- A stream that ended early: cancelled, or failed.
  pub early_end : E → W → Written
  early_end e w = elim (calls.cancelled w) [
    | some c ↦ (some (fail_result aborted (streaming c)), w)
    | none ↦ (some (fail_result failed (streaming e)), w)
  ]

  pub counted : String → List (Row F) → Progress T → Progress T
  counted column page p = record {
    rows = p.rows + length page;
    max_hwm = newest column p.max_hwm page;
    pages = p.pages + 1;
  }

  -- What both streams ask for.
  pub request : Effective → String → String → Request
  request eff order_by where_clause = record {
    order_by = order_by;
    where_clause = where_clause;
    select = ":*,*";
    limit = pos_part eff.limit;
    batch = calls.client_batch_size;
  }
