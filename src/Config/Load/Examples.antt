-- ===== src/Config/Load/Examples.antt =====
-- A small configuration, as it is written.
use civic_soda_quack.Prelude.{◌≡◌, ◌↔◌, refl, String, true, [], ◌∷◌, ok}
use civic_soda_quack.Prelude.Int.{pos}
use civic_soda_quack.Config.{Config, Effective, Canonical}
use civic_soda_quack.Config.Load.{
  apply_defaults, validate, load, guard, is_nonempty, known_on_error, validate_selectors,
  fields_set, int_default, text_default, db_default,
}
use civic_soda_quack.Config.Load.Valid.{IsEmpty, IsValid, IsFilled}
use civic_soda_quack.Config.Load.Loaded.{load_iff}

abbrev pub written : Config
written = record {
  portal = "city";
  app_token = "secret";
  db = "";
  concurrency = pos 0;
  on_error = "";
  defaults = record { batch_size = pos 0; order_by = "" };
  include = record { id = ""; name = ""; category = "Parks"; tag = "" } ∷ [];
  exclude = [];
  overrides = [];
}

-- With its defaults it loads.
pub written_loads : load true written ≡ ok (apply_defaults written)
unfolding load apply_defaults validate guard is_nonempty known_on_error validate_selectors
    fields_set int_default text_default db_default
written_loads = refl

load_iff_example : (load true written ≡ ok (apply_defaults written)) ↔ (
    (apply_defaults written ≡ apply_defaults written)
    × ((true ≡ true) → ¬ IsEmpty "secret")
    × IsValid (apply_defaults written)
    × IsFilled (apply_defaults written))
load_iff_example = load_iff true written (apply_defaults written)

abbrev dogs : Effective
dogs = record {
  dataset_id = "aaaa-0001";
  table = "dogs";
  where_clause = "";
  order_by = ":id";
  batch_size = pos 5000;
  limit = pos 0;
  skip_columns = [];
  mode = "";
  hwm_column = "";
  checkpoint_every_n_pages = pos 0;
}

-- A digest that tells tables apart.
abbrev by_table : Canonical → String
by_table c = c.table
