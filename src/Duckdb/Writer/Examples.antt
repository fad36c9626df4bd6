-- ===== src/Duckdb/Writer/Examples.antt =====
-- Writes to a database that is its own view, and where no statement fails.
use civic_soda_quack.Prelude.{ℕ, refl, Option, none, some, List, [], ◌∷◌, ◌++◌, ok}
use civic_soda_quack.Prelude.Int.{pos}
use civic_soda_quack.Socrata.{Row, text}
use civic_soda_quack.Duckdb.{varchar}
use civic_soda_quack.Duckdb.Schema.{TableSchema}
use civic_soda_quack.Duckdb.Values.{Coder, Value, scalar, row_id}
use civic_soda_quack.Duckdb.Engine.{main, Engine, Rows, View, after, Transactional, upsert_row}
use civic_soda_quack.Duckdb.Writer.{upsert_rows, swap_in}
use civic_soda_quack.Duckdb.Writer.Insert.{AllOrNothing, upsert_rows-AllOrNothing}
use civic_soda_quack.Duckdb.Writer.Swap.{Swaps, swap_in-Swaps}

abbrev coder : Coder ℕ ℕ
coder = record {
  parse_float = λ s. none;
  parse_int = λ s. none;
  parse_bool = λ s. none;
  parse_time = λ layout s. none;
  truncated = λ x. pos x;
  print = λ v. "";
  marshal = λ v. none;
}

abbrev merging : List (Option (Value ℕ ℕ)) → Rows ℕ ℕ → Rows ℕ ℕ
merging vals rows = rows ++ vals ∷ []

abbrev engine : Engine ℕ ℕ
engine = record {
  Db = View ℕ ℕ;
  Tx = View ℕ ℕ × View ℕ ℕ;
  Error = Unit {0};
  exec = λ st d. (ok tt, after merging st d);
  begin = λ d. ok (d, d);
  tx_exec = λ st t. (ok tt, (t.0, after merging st t.1));
  prepare = λ st t. ok tt;
  commit = λ t. (ok tt, t.1);
  rollback = λ t. t.0;
}

transactional : Transactional engine
transactional = record {
  view = λ d. d;
  tx_view = λ t. t.1;
  origin = λ t. t.0;
  merge = merging;
  begin_ok = λ d t h. (cc, cc);
  tx_exec_origin = λ st t. refl;
  tx_exec_ok = λ st t h. refl;
  rollback_origin = λ t. refl;
  commit_ok = λ t h. refl;
  commit_err = λ t x h. cc;
  exec_ok = λ st d h. refl;
  exec_err = λ st d x h. cc;
}

abbrev dogs : TableSchema
dogs = record {
  table = "dogs";
  columns =
      record { name = "socrata_id"; type = varchar; extraction = row_id }
      ∷ record { name = "name"; type = varchar; extraction = scalar "name" varchar }
      ∷ [];
  primary_key = "socrata_id";
}

abbrev page : List (Row ℕ)
page =
    ((":id", text "row-1") ∷ ("name", text "Rex") ∷ [])
    ∷ ((":id", text "row-2") ∷ ("name", text "Ada") ∷ [])
    ∷ []

-- A database with one empty table under each name.
abbrev empty_tables : View ℕ ℕ
empty_tables s n = some []

upsert_rows-AllOrNothing_example :
    AllOrNothing coder engine transactional
      (upsert_row main "dogs" "socrata_id")
      dogs.columns
      page
      empty_tables
      (upsert_rows coder engine main dogs page empty_tables)
upsert_rows-AllOrNothing_example =
    upsert_rows-AllOrNothing coder engine transactional main dogs page empty_tables

swap_in-Swaps_example :
    Swaps coder engine transactional "dogs_r1" "dogs" empty_tables
      (swap_in coder engine "dogs_r1" "dogs" "socrata_id" empty_tables)
swap_in-Swaps_example =
    swap_in-Swaps coder engine transactional "dogs_r1" "dogs" "socrata_id" empty_tables
