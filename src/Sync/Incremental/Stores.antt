-- ===== src/Sync/Incremental/Stores.antt =====
-- The table of stored states, `_csq.dataset_state`, as the calls of a sync change it.
use civic_soda_quack.Prelude.{◌≡◌, String, Option, some, List, ok, err, str_eq, if◌then◌else◌}
use civic_soda_quack.Socrata.{Row}
use civic_soda_quack.Socrata.Stream.{Query}
use civic_soda_quack.Duckdb.Schema.{TableSchema}
use civic_soda_quack.Sync.Incremental.{DatasetState, Calls}

-- The rows of `_csq.dataset_state`: only `UpsertDatasetState` writes them, by the id of the state.
pub record Stores {F T E W : Type 0} (calls : Calls F T E W)
    (stored : W → String → Option (DatasetState T)) : Type 0 where
  pub at_page : (q : Query) (w : W) → stored (calls.get_page q w).1 ≡ stored w
  pub at_metadata : (id : String) (w : W) → stored (calls.metadata id w).1 ≡ stored w
  pub at_create : (ts : TableSchema) (w : W) → stored (calls.create_staging_table ts w).1 ≡ stored w
  pub at_insert :
      (ts : TableSchema) (page : List (Row F)) (w : W)
      → stored (calls.insert_staging ts page w).1 ≡ stored w
  pub at_upsert :
      (ts : TableSchema) (page : List (Row F)) (w : W)
      → stored (calls.upsert_main ts page w).1 ≡ stored w
  pub at_swap : (s t k : String) (w : W) → stored (calls.swap s t k w).1 ≡ stored w
  pub at_drop : (s : String) (w : W) → stored (calls.drop_staging_table s w) ≡ stored w
  pub at_state_ok :
      (st : DatasetState T) (w : W) (j : String)
      → (calls.upsert_dataset_state st w).0 ≡ ok tt
      → stored (calls.upsert_dataset_state st w).1 j
        ≡ (if str_eq st.dataset_id j then some st else stored w j)
  pub at_state_err :
      (st : DatasetState T) (w : W) (x : E)
      → (calls.upsert_dataset_state st w).0 ≡ err x
      → stored (calls.upsert_dataset_state st w).1 ≡ stored w
