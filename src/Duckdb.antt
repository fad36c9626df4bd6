-- ===== src/Duckdb.antt =====
-- The DuckDB side of csq: internal/duckdb, with the column types of internal/socrata/types.go.
pub mod Diff
pub mod Values
pub mod Schema
pub mod Engine
pub mod Writer
pub mod Runs
pub mod Sweep
use civic_soda_quack.Prelude.{String, Bool, ◌||◌, str_eq, if◌then◌else◌}

-- `DuckDBType`
pub data ColumnType : Type 0 where
  varchar double bigint boolean timestamp json : ColumnType

pub type_text : ColumnType → String
type_text varchar = "VARCHAR"
type_text double = "DOUBLE"
type_text bigint = "BIGINT"
type_text boolean = "BOOLEAN"
type_text timestamp = "TIMESTAMP"
type_text json = "JSON"

-- `DuckDBTypeFor`
pub column_type_for : String → ColumnType
column_type_for t =
    if str_eq t "number" || str_eq t "percent" || str_eq t "money"
    then double
    else if str_eq t "calendar_date" || str_eq t "date"
    then timestamp
    else if str_eq t "checkbox"
    then boolean
    else if str_eq t "json"
        || str_eq t "multipolygon"
        || str_eq t "polygon"
        || str_eq t "line"
        || str_eq t "multiline"
        || str_eq t "multipoint"
    then json
    else varchar

-- `IsPointLike`
pub is_point_like : String → Bool
is_point_like t = str_eq t "point" || str_eq t "location"
