-- ===== src/Duckdb/Schema.antt =====
-- From Socrata columns to a table: `BuildSchema` and `BuildSchemaWithSocrataID` of
-- internal/duckdb/schema.go.
use Prim.Native.String
use text.Mathlib.Text.{starts_with}
use civic_soda_quack.Prelude.{String, ◌||◌, List, [], ◌∷◌, ◌++◌, str_eq, if◌then◌else◌}
use civic_soda_quack.Duckdb.{
  ColumnType, varchar, double, json, column_type_for, is_point_like, type_text,
}
use civic_soda_quack.Duckdb.Values.{Extraction, scalar, point_coord, raw_json, row_id}

-- `socrata.Column`, the fields that the schema reads.
pub record Column : Type 0 where
  pub field_name : String
  pub data_type_name : String

pub record TargetColumn : Type 0 where
  pub name : String
  pub type : ColumnType
  pub extraction : Extraction

pub record TableSchema : Type 0 where
  pub table : String
  pub columns : List TargetColumn
  pub primary_key : String

-- The body of the loop: what one source column becomes.
pub targets_of : Column → List TargetColumn
targets_of c =
    if starts_with c.field_name ":@" || str_eq c.field_name ""
    then []
    else if is_point_like c.data_type_name
    then record {
      name = String.◌++◌ c.field_name "_lon";
      type = double;
      extraction = point_coord c.field_name 0;
    }
      ∷ record {
        name = String.◌++◌ c.field_name "_lat";
        type = double;
        extraction = point_coord c.field_name 1;
      }
      ∷ record {
        name = String.◌++◌ c.field_name "_raw";
        type = json;
        extraction = raw_json c.field_name;
      }
      ∷ []
    else record {
      name = c.field_name;
      type = column_type_for c.data_type_name;
      extraction = scalar c.field_name (column_type_for c.data_type_name);
    }
      ∷ []

pub columns_of : List Column → List TargetColumn
columns_of [] = []
columns_of (c ∷ cs) = targets_of c ++ columns_of cs

pub build_schema : String → List Column → TableSchema
build_schema table cols = record { table = table; columns = columns_of cols; primary_key = "" }

pub build_schema_with_socrata_id : String → List Column → TableSchema
build_schema_with_socrata_id table cols =
    let ts = build_schema table cols in
    record ts {
      columns = record { name = "socrata_id"; type = varchar; extraction = row_id } ∷ ts.columns;
      primary_key = "socrata_id";
    }

-- The names and types of a schema, as the drift check reads them.
pub listing : List TargetColumn → List (String × String)
listing [] = []
listing (c ∷ cs) = (c.name, type_text c.type) ∷ listing cs
