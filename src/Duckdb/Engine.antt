-- ===== src/Duckdb/Engine.antt =====
-- What csq asks of database/sql and DuckDB. A statement of the source is a constructor with what the
-- source puts into its text; a database is only looked at through the functions given here.
use civic_soda_quack.Prelude.{
  ◌≡◌, Bool, true, false, ◌&&◌, str_eq, if◌then◌else◌, String, Option, none, some, List, ◌++◌, ◌∷◌,
  [], Result, ok, err,
}
use civic_soda_quack.Duckdb.Schema.{TargetColumn}
use civic_soda_quack.Duckdb.Values.{Value}

-- `_csq_staging` and `main`
pub data Schema : Type 0 where
  main staging : Schema

-- Statements on the tables of a portal.
pub data Statement (F T : Type 0) : Type 0 where
  create_table : Schema → String → List TargetColumn → String → Statement F T
  drop_table_if_exists : Schema → String → Statement F T
  drop_table : Schema → String → Statement F T
  create_from_staging : String → String → Statement F T  -- main."target" AS SELECT * FROM staging
  add_primary_key : String → String → Statement F T
  insert_row : Schema → String → List (Option (Value F T)) → Statement F T
  upsert_row : Schema → String → String → List (Option (Value F T)) → Statement F T

pub record Engine (F T : Type 0) : Type 1 where
  pub Db : Type 0
  pub Tx : Type 0
  pub Error : Type 0
  pub exec : Statement F T → Db → Result Error (Unit {0}) × Db
  pub begin : Db → Result Error Tx
  pub tx_exec : Statement F T → Tx → Result Error (Unit {0}) × Tx
  pub prepare : Statement F T → Tx → Result Error (Unit {0})
  pub commit : Tx → Result Error (Unit {0}) × Db
  pub rollback : Tx → Db

-- The rows of a table, with its values in the order of the columns; `none` is a table that is absent.
abbrev pub Rows : Type 0 → Type 0 → Type 0
Rows F T = List (List (Option (Value F T)))

abbrev pub View : Type 0 → Type 0 → Type 0
View F T = Schema → String → Option (Rows F T)

abbrev pub same_schema : Schema → Schema → Bool
same_schema main main = true
same_schema staging staging = true
same_schema main staging = false
same_schema staging main = false

abbrev pub set_table : {F T : Type 0} → View F T → Schema → String → Option (Rows F T) → View F T
set_table v s n r s' n' = if same_schema s s' && str_eq n n' then r else v s' n'

abbrev pub created {ℓ} : {A : Type ℓ} → Option (List A) → Option (List A)
created none = some []
created (some rows) = some rows

abbrev pub on_rows {ℓ} : {A : Type ℓ} → (List A → List A) → Option (List A) → Option (List A)
on_rows f none = none
on_rows f (some rows) = some (f rows)

-- What a statement that succeeds does to the tables; `merge` is the effect of ON CONFLICT DO UPDATE.
abbrev pub after :
    {F T : Type 0}
    → (List (Option (Value F T)) → Rows F T → Rows F T)
    → Statement F T
    → View F T
    → View F T
after merge (create_table s n cols pk) v = set_table v s n (created (v s n))
after merge (drop_table_if_exists s n) v = set_table v s n none
after merge (drop_table s n) v = set_table v s n none
after merge (create_from_staging target n) v = set_table v main target (v staging n)
after merge (add_primary_key n col) v = v
after merge (insert_row s n vals) v = set_table v s n (on_rows (λ rows. rows ++ vals ∷ []) (v s n))
after merge (upsert_row s n pk vals) v = set_table v s n (on_rows (merge vals) (v s n))

-- What SQL documents: a statement does what it says or fails; a transaction that is rolled back, or
-- whose commit fails, leaves the database as it was; one that is committed leaves its own view.
pub record Transactional {F T : Type 0} (e : Engine F T) : Type 1 where
  pub view : e.Db → View F T
  pub tx_view : e.Tx → View F T
  pub origin : e.Tx → e.Db
  pub merge : List (Option (Value F T)) → Rows F T → Rows F T
  pub begin_ok : (d : e.Db) (t : e.Tx) → e.begin d ≡ ok t → (origin t ≡ d) × (tx_view t ≡ view d)
  pub tx_exec_origin : (st : Statement F T) (t : e.Tx) → origin (e.tx_exec st t).1 ≡ origin t
  pub tx_exec_ok :
      (st : Statement F T) (t : e.Tx)
      → (e.tx_exec st t).0 ≡ ok tt
      → tx_view (e.tx_exec st t).1 ≡ after merge st (tx_view t)
  pub rollback_origin : (t : e.Tx) → e.rollback t ≡ origin t
  pub commit_ok : (t : e.Tx) → (e.commit t).0 ≡ ok tt → view (e.commit t).1 ≡ tx_view t
  pub commit_err : (t : e.Tx) (x : e.Error) → (e.commit t).0 ≡ err x → (e.commit t).1 ≡ origin t
  pub exec_ok :
      (st : Statement F T) (d : e.Db)
      → (e.exec st d).0 ≡ ok tt
      → view (e.exec st d).1 ≡ after merge st (view d)
  pub exec_err :
      (st : Statement F T) (d : e.Db) (x : e.Error) → (e.exec st d).0 ≡ err x → (e.exec st d).1 ≡ d
