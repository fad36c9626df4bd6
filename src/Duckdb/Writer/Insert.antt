-- ===== src/Duckdb/Writer/Insert.antt =====
-- A page is written whole or not at all.
use civic_soda_quack.Prelude.{
  ℕ, suc, ◌≡◌, refl, ap, ◌∙◌, inl, inr, Option, List, [], ◌∷◌, Result, ok, err, ◌>>=◌, str_eq,
  Bool-cases,
}
use civic_soda_quack.Socrata.{Row}
use civic_soda_quack.Duckdb.Schema.{TargetColumn, TableSchema}
use civic_soda_quack.Duckdb.Values.{Value, Coder}
use civic_soda_quack.Duckdb.Engine.{
  Schema, Statement, insert_row, upsert_row, Engine, View, after, Transactional,
}
use civic_soda_quack.Duckdb.Writer.{
  WriteError, commit_failed, Answer, row_values, continue, write_values, write_rows, close, wrapped,
  prepared, in_transaction, write_page, insert_rows_into, upsert_rows,
}

module _ {F T : Type 0} (coder : Coder F T) (e : Engine F T) (l : Transactional e) where
  abbrev Values : Type 0
  Values = List (Option (Value F T))

  -- The values of every row of a page.
  pub all_values : ℕ → List TargetColumn → List (Row F) → Result (WriteError e.Error) (List Values)
  all_values i cols [] = ok []
  all_values i cols (row ∷ rows) = do
    vs ← row_values coder e i cols row
    rest ← all_values (suc i) cols rows
    ok (vs ∷ rest)

  -- The statements of a page, one after the other.
  abbrev pub after_all : (Values → Statement F T) → List Values → View F T → View F T
  after_all st [] v = v
  after_all st (x ∷ xs) v = after_all st xs (after l.merge (st x) v)

  -- A page is written in full, or the database is as it was.
  abbrev pub AllOrNothing :
      (Values → Statement F T)
      → List TargetColumn
      → List (Row F)
      → e.Db
      → Answer coder e × e.Db
      → Type 0
  AllOrNothing st cols rows d (ok u, d') =
      (vss : List Values) × (all_values 0 cols rows ≡ ok vss)
      × (l.view d' ≡ after_all st vss (l.view d))
  AllOrNothing st cols rows d (err x, d') = d' ≡ d

  RowsDone :
      (Values → Statement F T)
      → List TargetColumn
      → ℕ
      → List (Row F)
      → e.Tx
      → Answer coder e × e.Tx
      → Type 0
  RowsDone st cols i rows t (ok u, t') =
      (vss : List Values) × (all_values i cols rows ≡ ok vss)
      × (l.tx_view t' ≡ after_all st vss (l.tx_view t))
      × (l.origin t' ≡ l.origin t)
  RowsDone st cols i rows t (err x, t') = l.origin t' ≡ l.origin t

  module _ (st : Values → Statement F T) (cols : List TargetColumn) where
    -- One row in front of the others.
    RowsDone-cons :
        (i : ℕ) (row : Row F) (rows : List (Row F)) (vs : Values) (t t1 : e.Tx)
        (r : Answer coder e × e.Tx)
        → row_values coder e i cols row ≡ ok vs
        → l.tx_view t1 ≡ after l.merge (st vs) (l.tx_view t)
        → l.origin t1 ≡ l.origin t
        → RowsDone st cols (suc i) rows t1 r
        → RowsDone st cols i (row ∷ rows) t r
    unfolding RowsDone all_values
    RowsDone-cons i row rows vs t t1 (ok u, t') got seen same (vss, all, view, kept) =
        (vs ∷ vss, rw (got, all) refl, view ∙ ap (after_all st vss) seen, kept ∙ same)
    RowsDone-cons i row rows vs t t1 (err x, t') got seen same kept = kept ∙ same

    continue-RowsDone :
        (i : ℕ) (row : Row F) (rows : List (Row F)) (vs : Values) (t : e.Tx)
        (k : e.Tx → Answer coder e × e.Tx) (p : Result e.Error (Unit {0}) × e.Tx)
        → row_values coder e i cols row ≡ ok vs
        → (p.0 ≡ ok tt → l.tx_view p.1 ≡ after l.merge (st vs) (l.tx_view t))
        → l.origin p.1 ≡ l.origin t
        → ((t1 : e.Tx) → RowsDone st cols (suc i) rows t1 (k t1))
        → RowsDone st cols i (row ∷ rows) t (continue coder e k i p)
    unfolding continue RowsDone
    continue-RowsDone i row rows vs t k (ok u, t1) got seen same rest =
        RowsDone-cons i row rows vs t t1 (k t1) got (seen refl) same (rest t1)
    continue-RowsDone i row rows vs t k (err x, t1) got seen same rest = same

    write_values-RowsDone :
        (i : ℕ) (row : Row F) (rows : List (Row F)) (t : e.Tx) (k : e.Tx → Answer coder e × e.Tx)
        (r : Result (WriteError e.Error) Values)
        → row_values coder e i cols row ≡ r
        → ((t1 : e.Tx) → RowsDone st cols (suc i) rows t1 (k t1))
        → RowsDone st cols i (row ∷ rows) t (write_values coder e st k i r t)
    unfolding write_values RowsDone
    write_values-RowsDone i row rows t k (ok vs) got rest =
        continue-RowsDone i row rows vs t k (e.tx_exec (st vs) t) got (l.tx_exec_ok (st vs) t)
          (l.tx_exec_origin (st vs) t) rest
    write_values-RowsDone i row rows t k (err x) got rest = refl

    write_rows-RowsDone :
        (i : ℕ) (rows : List (Row F)) (t : e.Tx)
        → RowsDone st cols i rows t (write_rows coder e st cols i rows t)
    unfolding write_rows RowsDone all_values
    write_rows-RowsDone i [] t = ([], refl, refl, refl)
    write_rows-RowsDone i (row ∷ rows) t =
        write_values-RowsDone i row rows t (write_rows coder e st cols (suc i) rows)
          (row_values coder e i cols row) refl (λ t1. write_rows-RowsDone (suc i) rows t1)

    close-AllOrNothing :
        (rows : List (Row F)) (d : e.Db) (t : e.Tx) (r : Answer coder e × e.Tx)
        → l.origin t ≡ d
        → l.tx_view t ≡ l.view d
        → RowsDone st cols 0 rows t r
        → AllOrNothing st cols rows d (close coder e commit_failed r)
    unfolding close RowsDone wrapped
    close-AllOrNothing rows d t (err x, t') from seen kept = l.rollback_origin t' ∙ kept ∙ from
    close-AllOrNothing rows d t (ok u, t') from seen (vss, all, view, kept) =
        committed (e.commit t') (l.commit_ok t') (l.commit_err t')
      where
        committed :
            (p : Result e.Error (Unit {0}) × e.Db)
            → (p.0 ≡ ok tt → l.view p.1 ≡ l.tx_view t')
            → ((x : e.Error) → p.0 ≡ err x → p.1 ≡ l.origin t')
            → AllOrNothing st cols rows d (wrapped coder e commit_failed p.0, p.1)
        committed (ok u', d') good bad = (vss, all, good refl ∙ view ∙ ap (after_all st vss) seen)
        committed (err x, d') good bad = bad x refl ∙ kept ∙ from

    prepared-AllOrNothing :
        (rows : List (Row F)) (d : e.Db) (t : e.Tx) (p : Result e.Error (Unit {0}))
        → l.origin t ≡ d
        → l.tx_view t ≡ l.view d
        → AllOrNothing st cols rows d
            (close coder e commit_failed (prepared coder e (write_rows coder e st cols 0 rows) p t))
    unfolding prepared
    prepared-AllOrNothing rows d t (ok u) from seen =
        close-AllOrNothing rows d t (write_rows coder e st cols 0 rows t) from seen
          (write_rows-RowsDone 0 rows t)
    prepared-AllOrNothing rows d t (err x) from seen = unfold close in (l.rollback_origin t ∙ from)

    begun-AllOrNothing :
        (rows : List (Row F)) (d : e.Db) (b : Result e.Error e.Tx)
        → e.begin d ≡ b
        → AllOrNothing st cols rows d (
            in_transaction coder e
              (λ t. prepared coder e (write_rows coder e st cols 0 rows) (e.prepare (st []) t) t)
              d
              b)
    unfolding in_transaction
    begun-AllOrNothing rows d (ok t) begun =
        let (from, seen) = l.begin_ok d t begun in
        prepared-AllOrNothing rows d t (e.prepare (st []) t) from seen
    begun-AllOrNothing rows d (err x) begun = refl

    write_page-AllOrNothing :
        (rows : List (Row F)) (d : e.Db)
        → AllOrNothing st cols rows d (write_page coder e st cols rows d)
    unfolding write_page
    write_page-AllOrNothing rows d = begun-AllOrNothing rows d (e.begin d) refl

  -- Over a database with transactions, an insert of a page that reports no error has put the
  -- values of every row behind the table's rows, in order; one that reports any error, of the
  -- database or of a value, leaves the database as it was.
  pub insert_rows_into-AllOrNothing :
      (s : Schema) (ts : TableSchema) (rows : List (Row F)) (d : e.Db)
      → AllOrNothing
          (insert_row s ts.table)
          ts.columns
          rows
          d
          (insert_rows_into coder e s ts rows d)
  unfolding insert_rows_into all_values
  insert_rows_into-AllOrNothing s ts [] d = ([], refl, refl)
  insert_rows_into-AllOrNothing s ts (row ∷ rows) d =
      write_page-AllOrNothing (insert_row s ts.table) ts.columns (row ∷ rows) d

  -- Over a database with transactions, an upsert of a page that reports no error has merged the
  -- values of every row, in order; one that reports any error, of the database, of a value or for
  -- want of a primary key, leaves the database as it was.
  pub upsert_rows-AllOrNothing :
      (s : Schema) (ts : TableSchema) (rows : List (Row F)) (d : e.Db)
      → AllOrNothing
          (upsert_row s ts.table ts.primary_key)
          ts.columns
          rows
          d
          (upsert_rows coder e s ts rows d)
  unfolding upsert_rows all_values
  upsert_rows-AllOrNothing s ts [] d = ([], refl, refl)
  upsert_rows-AllOrNothing s ts (row ∷ rows) d = elim (Bool-cases (str_eq ts.primary_key "")) [
    | inl y ↦ rw y refl
    | inr z ↦
        rw z
          (write_page-AllOrNothing (upsert_row s ts.table ts.primary_key) ts.columns (row ∷ rows) d)
  ]
