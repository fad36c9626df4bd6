-- ===== src/Sync/Incremental/Examples.antt =====
-- Syncs of a dataset with one row, on a world that is the table of stored states.
use civic_soda_quack.Prelude.{
  ◌≡◌, ℕ, refl, String, true, Option, none, some, [], ◌∷◌, ok, str_eq, if◌then◌else◌,
}
use civic_soda_quack.Prelude.Int.{pos}
use civic_soda_quack.Socrata.{Row, text}
use civic_soda_quack.Config.{effective_for}
use civic_soda_quack.Config.Load.{apply_defaults}
use civic_soda_quack.Config.Load.Examples.{written, written_loads}
use civic_soda_quack.Sync.Incremental.{delta_order}
use civic_soda_quack.Sync.Incremental.Delta.Keeps.{delta-KeptUnlessDone}
use civic_soda_quack.Sync.Incremental.Delta.Order.{delta_order-effective_for}
use civic_soda_quack.Sync.{Target}
use civic_soda_quack.Sync.Incremental.{DatasetState, Calls}
use civic_soda_quack.Sync.Incremental.Bootstrap.{bootstrap}
use civic_soda_quack.Sync.Incremental.Delta.{delta}
use civic_soda_quack.Sync.Incremental.Stores.{Stores}
use civic_soda_quack.Sync.Incremental.Bootstrap.Keeps.{KeptUnlessDone, bootstrap-KeptUnlessDone}
use civic_soda_quack.Sync.Incremental.Delta.Advance.{Ahead, delta-Ahead}

abbrev States : Type 0
States = String → Option (DatasetState ℕ)

abbrev one_row : Row ℕ
one_row = (":id", text "row-1") ∷ (":updated_at", text "2024") ∷ []

-- Every time reads as the instant 7; nothing fails.
abbrev calls : Calls ℕ ℕ (Unit {0}) States
calls = record {
  client_batch_size = 10;
  cancelled = λ w. none;
  get_page = λ q w. (ok (one_row ∷ []), w);
  metadata = λ id w. (ok (record { field_name = "a"; data_type_name = "text" } ∷ []), w);
  read_dataset_state = λ id w. ok (w id);
  has_socrata_id = λ s w. ok true;
  live_columns = λ s w. ok (("socrata_id", "VARCHAR") ∷ ("a", "VARCHAR") ∷ []);
  create_staging_table = λ ts w. (ok tt, w);
  insert_staging = λ ts page w. (ok tt, w);
  upsert_main = λ ts page w. (ok tt, w);
  swap = λ s t k w. (ok tt, w);
  drop_staging_table = λ s w. w;
  upsert_dataset_state = λ st w. (ok tt, λ j. if str_eq st.dataset_id j then some st else w j);
  now = λ w. 9;
  instant = λ t. t;
  parse_time = λ layout s. some 7;
  format_time = λ t. "2024";
  upper = λ s. s;
}

stored : States → String → Option (DatasetState ℕ)
stored w = w

stores : Stores calls stored
unfolding stored
stores = record {
  at_page = λ q w. refl;
  at_metadata = λ id w. refl;
  at_create = λ ts w. refl;
  at_insert = λ ts page w. refl;
  at_upsert = λ ts page w. refl;
  at_swap = λ s t k w. refl;
  at_drop = λ s w. refl;
  at_state_ok = λ st w j h. refl;
  at_state_err = λ st w x h. cc;
}

abbrev target : Target
target = record {
  id = "d";
  name = "Dogs";
  effective = record {
    dataset_id = "d";
    table = "d";
    where_clause = "";
    order_by = ":id";
    batch_size = pos 5000;
    limit = pos 0;
    skip_columns = [];
    mode = "";
    hwm_column = "";
    checkpoint_every_n_pages = pos 1;
  };
}

abbrev five : DatasetState ℕ
five = record {
  dataset_id = "d";
  hwm_updated_at = some 5;
  last_full_replace_at = some 1;
  last_run_id = "r0";
  hwm_column = ":updated_at";
}

bootstrap-KeptUnlessDone_example :
    KeptUnlessDone calls stored stores "r1" 3 target
      (λ j. none)
      (bootstrap calls "r1" 3 target (λ j. none))
bootstrap-KeptUnlessDone_example =
    bootstrap-KeptUnlessDone calls stored stores "r1" 3 target (λ j. none)

delta-Ahead_example :
    Ahead calls stored stores "r1" 3 target five
      (stored (delta calls "r1" 3 target five (λ j. some five)).1 "d")
unfolding stored
delta-Ahead_example = delta-Ahead calls stored stores "r1" 3 target five (λ j. some five) refl

-- The same dataset without checkpoints.
abbrev quiet : Target
quiet = record target { effective = record target.effective { checkpoint_every_n_pages = pos 0 } }

delta-KeptUnlessDone_example :
    KeptUnlessDone calls stored stores "r1" 3 quiet
      (λ j. some five)
      (delta calls "r1" 3 quiet five (λ j. some five))
delta-KeptUnlessDone_example =
    delta-KeptUnlessDone calls stored stores "r1" 3 quiet five refl (λ j. some five)

delta_order-effective_for_example :
    delta_order ":updated_at" (effective_for (apply_defaults written) "aaaa-0001").order_by
    ≡ (effective_for (apply_defaults written) "aaaa-0001").order_by
delta_order-effective_for_example =
    delta_order-effective_for true written (apply_defaults written) "aaaa-0001" ":updated_at"
      written_loads
