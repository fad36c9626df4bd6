-- ===== src/Sync/Selectors/Examples.antt =====
-- A catalog of two datasets, of which one is excluded.
use civic_soda_quack.Prelude.{String, none, some, List, [], ◌∷◌, str_eq}
use civic_soda_quack.Prelude.Int.{pos}
use civic_soda_quack.Config.{Config}
use civic_soda_quack.Socrata.Catalog.{CatalogEntry}
use civic_soda_quack.Sync.Selectors.{resolve}
use civic_soda_quack.Sync.Selectors.Resolved.{Describes, resolve-Describes}

abbrev entry : String → String → CatalogEntry (Unit {0})
entry id category = record {
  id = id;
  name = id;
  description = "";
  category = category;
  tags = [];
  updated_at = none;
}

abbrev catalog : List (CatalogEntry (Unit {0}))
catalog = entry "aaaa-0001" "Parks" ∷ entry "aaaa-0002" "Parks" ∷ []

abbrev config : Config
config = record {
  portal = "city";
  app_token = "";
  db = "city.duckdb";
  concurrency = pos 4;
  on_error = "continue";
  defaults = record { batch_size = pos 5000; order_by = ":id" };
  include = record { id = ""; name = ""; category = "Parks"; tag = "" } ∷ [];
  exclude = record { id = "aaaa-0002"; name = ""; category = ""; tag = "" } ∷ [];
  overrides = [];
}

resolve-Describes_example :
    Describes
      (λ p s. some (str_eq p s))
      config
      catalog
      ("aaaa-0001" ∷ [])
      (resolve (λ p s. some (str_eq p s)) config catalog ("aaaa-0001" ∷ []))
resolve-Describes_example =
    resolve-Describes (λ p s. some (str_eq p s)) config catalog ("aaaa-0001" ∷ [])
