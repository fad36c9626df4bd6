-- ===== src/Config.antt =====
-- The portal configuration: internal/config/config.go, effective.go and load.go.
-- An `int` is a ℤ; error texts are left out, but for what they point at.
pub mod Load
pub mod Merge
use Prim.Native.Char.{Char, code}
use Prim.Native.String
use civic_soda_quack.Prelude.{
  ℕ, zero, suc, ◌+◌, String, Bool, true, false, ◌&&◌, ◌||◌, not, Option, none, some, List, [], ◌∷◌,
  Result, ok, err, ◌>>◌, ◌==◌, str_eq, if◌then◌else◌,
}
use civic_soda_quack.Prelude.Int.{ℤ, pos, eqb_ℤ, ltb_ℤ}
use civic_soda_quack.Prelude.Maps.{get}

pub record Selector : Type 0 where
  pub id : String
  pub name : String
  pub category : String
  pub tag : String

pub record Defaults : Type 0 where
  pub batch_size : ℤ
  pub order_by : String

pub record Override : Type 0 where
  pub table : String
  pub where_clause : String
  pub order_by : String
  pub batch_size : ℤ
  pub limit : ℤ
  pub skip_columns : List String  -- `Columns.Skip`
  pub mode : String
  pub hwm_column : String
  pub checkpoint_every_n_pages : ℤ

pub record Config : Type 0 where
  pub portal : String
  pub app_token : String
  pub db : String
  pub concurrency : ℤ
  pub on_error : String
  pub defaults : Defaults
  pub include : List Selector
  pub exclude : List Selector
  pub overrides : List (String × Override)

pub record Effective : Type 0 where
  pub dataset_id : String
  pub table : String
  pub where_clause : String
  pub order_by : String
  pub batch_size : ℤ
  pub limit : ℤ
  pub skip_columns : List String
  pub mode : String
  pub hwm_column : String
  pub checkpoint_every_n_pages : ℤ

-- `strings.ReplaceAll(id, "-", "_")`
pub underscored : String → String
underscored String.[] = String.[]
underscored (String.◌∷◌ c s) =
    String.◌++◌ (if code c == b'-' then "_" else String.◌∷◌ c String.[]) (underscored s)

-- `if v != "" { field = v }`
abbrev pub text_or : String → String → String
text_or field v = if str_eq v "" then field else v

-- `if v != 0 { field = v }`
abbrev pub int_or : ℤ → ℤ → ℤ
int_or field v = if eqb_ℤ v (pos 0) then field else v

abbrev pub list_or {ℓ} : {A : Type ℓ} → List A → List A → List A
list_or field [] = field
list_or field (x ∷ xs) = x ∷ xs

base_for : Config → String → Effective
base_for c id = record {
  dataset_id = id;
  table = underscored id;
  where_clause = "";
  order_by = c.defaults.order_by;
  batch_size = c.defaults.batch_size;
  limit = pos 0;
  skip_columns = [];
  mode = "";
  hwm_column = "";
  checkpoint_every_n_pages = pos 0;
}

overridden : Effective → Option Override → Effective
overridden e none = e
overridden e (some ov) = record {
  dataset_id = e.dataset_id;
  table = text_or e.table ov.table;
  where_clause = text_or e.where_clause ov.where_clause;
  order_by = text_or e.order_by ov.order_by;
  batch_size = int_or e.batch_size ov.batch_size;
  limit = int_or e.limit ov.limit;
  skip_columns = list_or e.skip_columns ov.skip_columns;
  mode = text_or e.mode ov.mode;
  hwm_column = text_or e.hwm_column ov.hwm_column;
  checkpoint_every_n_pages = int_or e.checkpoint_every_n_pages ov.checkpoint_every_n_pages;
}

-- `EffectiveFor`
pub effective_for : Config → String → Effective
unfolding base_for overridden
effective_for c id = overridden (base_for c id) (get id c.overrides)

-- The struct that `Hash` digests.
pub record Canonical : Type 0 where
  pub table : String
  pub where_clause : String
  pub order_by : String
  pub batch_size : ℤ
  pub limit : ℤ
  pub skip_columns : List String
  pub mode : String
  pub hwm_column : String
  pub checkpoint_every_n_pages : ℤ

pub canonical : Effective → Canonical
canonical e = record {
  table = e.table;
  where_clause = e.where_clause;
  order_by = e.order_by;
  batch_size = e.batch_size;
  limit = e.limit;
  skip_columns = e.skip_columns;
  mode = e.mode;
  hwm_column = e.hwm_column;
  checkpoint_every_n_pages = e.checkpoint_every_n_pages;
}

-- `digest` is the JSON text, its sha256 and the hexadecimal of that.
pub hash : (Canonical → String) → Effective → String
unfolding canonical
hash digest e = String.◌++◌ "sha256:" (digest (canonical e))
