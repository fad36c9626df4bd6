-- ===== src/Duckdb/Writer.antt =====
-- Writing pages of rows: internal/duckdb/writer.go and upsert.go, and the swap of a staging table
-- into place, swap.go. The rows of `Rollback` that run after a commit do nothing and are left out.
mod Examples
pub mod Insert
pub mod Swap
use civic_soda_quack.Prelude.{
  ℕ, zero, suc, ◌+◌, String, Bool, Option, none, some, List, [], ◌∷◌, Result, ok, err, str_eq,
  if◌then◌else◌,
}
use civic_soda_quack.Socrata.{Row}
use civic_soda_quack.Duckdb.Schema.{TargetColumn, TableSchema}
use civic_soda_quack.Duckdb.Values.{Value, ValueError, Coder, extract}
use civic_soda_quack.Duckdb.Engine.{
  Schema, main, staging, Statement, create_table, drop_table_if_exists, drop_table,
  create_from_staging, add_primary_key, insert_row, upsert_row, Engine,
}

pub data WriteError (X : Type 0) : Type 0 where
  begin_failed : X → WriteError X
  prepare_failed : X → WriteError X
  extract_failed : ℕ → String → ValueError → WriteError X
  row_failed : ℕ → X → WriteError X
  commit_failed : X → WriteError X
  no_primary_key : WriteError X
  drop_failed : X → WriteError X
  copy_failed : X → WriteError X
  drop_staging_failed : X → WriteError X
  key_failed : X → WriteError X
  create_failed : X → WriteError X

module _ {F T : Type 0} (coder : Coder F T) (e : Engine F T) where
  abbrev Answer : Type 0
  Answer = Result (WriteError e.Error) (Unit {0})

  cons_value :
      ℕ
      → String
      → Result ValueError (Option (Value F T))
      → Result (WriteError e.Error) (List (Option (Value F T)))
      → Result (WriteError e.Error) (List (Option (Value F T)))
  cons_value i name (err x) rest = err (extract_failed i name x)
  cons_value i name (ok v) (err x) = err x
  cons_value i name (ok v) (ok vs) = ok (v ∷ vs)

  -- The values of a row, in the order of the columns, or the first column that fails.
  pub row_values :
      ℕ → List TargetColumn → Row F → Result (WriteError e.Error) (List (Option (Value F T)))
  row_values i [] row = ok []
  row_values i (col ∷ cols) row =
      cons_value i col.name (extract coder col.extraction row) (row_values i cols row)

  wrapped : (e.Error → WriteError e.Error) → Result e.Error (Unit {0}) → Answer
  wrapped f (ok u) = ok u
  wrapped f (err x) = err (f x)

  -- After the statement of row `i`.
  continue : (e.Tx → Answer × e.Tx) → ℕ → Result e.Error (Unit {0}) × e.Tx → Answer × e.Tx
  continue k i (ok u, t) = k t
  continue k i (err x, t) = (err (row_failed i x), t)

  write_values :
      (List (Option (Value F T)) → Statement F T)
      → (e.Tx → Answer × e.Tx)
      → ℕ
      → Result (WriteError e.Error) (List (Option (Value F T)))
      → e.Tx
      → Answer × e.Tx
  write_values st k i (err x) t = (err x, t)
  write_values st k i (ok vs) t = continue k i (e.tx_exec (st vs) t)

  -- The loop over the rows of a page, from row `i`.
  pub write_rows :
      (List (Option (Value F T)) → Statement F T)
      → List TargetColumn
      → ℕ
      → List (Row F)
      → e.Tx
      → Answer × e.Tx
  write_rows st cols i [] t = (ok tt, t)
  write_rows st cols i (row ∷ rows) t =
      write_values st (write_rows st cols (suc i) rows) i (row_values i cols row) t

  -- `tx.Commit`, or the deferred `tx.Rollback`.
  close : (e.Error → WriteError e.Error) → Answer × e.Tx → Answer × e.Db
  close f (err x, t) = (err x, e.rollback t)
  close f (ok u, t) = let (done, d) = e.commit t in (wrapped f done, d)

  prepared : (e.Tx → Answer × e.Tx) → Result e.Error (Unit {0}) → e.Tx → Answer × e.Tx
  prepared k (ok u) t = k t
  prepared k (err x) t = (err (prepare_failed x), t)

  in_transaction : (e.Tx → Answer × e.Tx) → e.Db → Result e.Error e.Tx → Answer × e.Db
  in_transaction k d (err x) = (err (begin_failed x), d)
  in_transaction k d (ok t) = close commit_failed (k t)

  write_page :
      (List (Option (Value F T)) → Statement F T)
      → List TargetColumn
      → List (Row F)
      → e.Db
      → Answer × e.Db
  write_page st cols rows d =
      in_transaction (λ t. prepared (write_rows st cols 0 rows) (e.prepare (st []) t) t) d
        (e.begin d)

  -- `InsertRowsInto`
  pub insert_rows_into : Schema → TableSchema → List (Row F) → e.Db → Answer × e.Db
  insert_rows_into s ts [] d = (ok tt, d)
  insert_rows_into s ts (row ∷ rows) d =
      write_page (insert_row s ts.table) ts.columns (row ∷ rows) d

  -- `InsertRows`: the unqualified table is that of `main`.
  pub insert_rows : TableSchema → List (Row F) → e.Db → Answer × e.Db
  insert_rows ts [] d = (ok tt, d)
  insert_rows ts (row ∷ rows) d = write_page (insert_row main ts.table) ts.columns (row ∷ rows) d

  -- `UpsertRows`
  pub upsert_rows : Schema → TableSchema → List (Row F) → e.Db → Answer × e.Db
  upsert_rows s ts [] d = (ok tt, d)
  upsert_rows s ts (row ∷ rows) d =
      if str_eq ts.primary_key ""
      then (err no_primary_key, d)
      else write_page (upsert_row s ts.table ts.primary_key) ts.columns (row ∷ rows) d

  -- `EnsureTable`
  pub ensure_table : TableSchema → e.Db → Answer × e.Db
  ensure_table ts d =
      let (done, d') = e.exec (create_table main ts.table ts.columns ts.primary_key) d in
      (wrapped create_failed done, d')

  and_then : Answer × e.Db → (e.Db → Answer × e.Db) → Answer × e.Db
  and_then (ok u, d) k = k d
  and_then (err x, d) k = (err x, d)

  run : (e.Error → WriteError e.Error) → Statement F T → e.Db → Answer × e.Db
  run f st d = let (done, d') = e.exec st d in (wrapped f done, d')

  -- `ReplaceTable`
  pub replace_table : TableSchema → e.Db → Answer × e.Db
  replace_table ts d =
      and_then (run drop_failed (drop_table_if_exists main ts.table) d) (ensure_table ts)

  tx_then : Answer × e.Tx → (e.Tx → Answer × e.Tx) → Answer × e.Tx
  tx_then (ok u, t) k = k t
  tx_then (err x, t) k = (err x, t)

  tx_run : (e.Error → WriteError e.Error) → Statement F T → e.Tx → Answer × e.Tx
  tx_run f st t = let (done, t') = e.tx_exec st t in (wrapped f done, t')

  -- The three statements of the swap's transaction.
  pub swap_statements : String → String → e.Tx → Answer × e.Tx
  swap_statements staged target t =
      tx_then (tx_run drop_failed (drop_table_if_exists main target) t) (λ t1.
        tx_then (tx_run copy_failed (create_from_staging target staged) t1)
          (tx_run drop_staging_failed (drop_table staging staged)))

  install_key : String → String → e.Db → Answer × e.Db
  install_key target key d =
      if str_eq key "" then (ok tt, d) else run key_failed (add_primary_key target key) d

  -- `SwapIn`
  pub swap_in : String → String → String → e.Db → Answer × e.Db
  swap_in staged target key d =
      and_then (in_transaction (swap_statements staged target) d (e.begin d))
        (install_key target key)

  -- `DropStaging`
  pub drop_staging : String → e.Db → Answer × e.Db
  drop_staging staged d = run drop_staging_failed (drop_table_if_exists staging staged) d
