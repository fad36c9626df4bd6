-- ===== src/Duckdb/Values.antt =====
-- What a row gives for a column: the extractors and coercions of internal/duckdb/schema.go.
-- `F` is float64 and `T` time.Time. Error texts are left out, but for the value they are about.
use civic_soda_quack.Prelude.{
  ℕ, zero, suc, String, Bool, Option, none, some, List, [], ◌∷◌, Result, ok, err, str_eq,
  if◌then◌else◌,
}
use civic_soda_quack.Prelude.Maps.{get}
use civic_soda_quack.Prelude.Int.{ℤ}
use civic_soda_quack.Socrata.{
  Json, Items, Fields, Row, null, boolean, number, text, array, object, nil, cons, end, field,
}
use civic_soda_quack.Duckdb.{ColumnType, varchar, double, bigint, timestamp, json}

-- A value for the driver; a nil `any` is `none` around it.
pub data Value (F T : Type 0) : Type 0 where
  a_text : String → Value F T
  a_float : F → Value F T
  an_int : ℤ → Value F T
  a_bool : Bool → Value F T
  a_time : T → Value F T

pub data ValueError : Type 0 where
  not_a_float not_an_int not_a_bool not_a_time : String → ValueError  -- a text that does not parse
  unexpected : ValueError  -- a value of another JSON type
  not_marshalled : ValueError

-- The library's part: strconv, time.Parse with one of `timestampLayouts`, the conversion to int64,
-- `%v` and json.Marshal.
pub record Coder (F T : Type 0) : Type 0 where
  pub parse_float : String → Option F
  pub parse_int : String → Option ℤ
  pub parse_bool : String → Option Bool
  pub parse_time : String → String → Option T
  pub truncated : F → ℤ
  pub print : Json F → String
  pub marshal : Json F → Option String

-- How a column is read off a row; the closures of the source, by what they capture.
pub data Extraction : Type 0 where
  scalar : String → ColumnType → Extraction
  point_coord : String → ℕ → Extraction
  raw_json : String → Extraction
  row_id : Extraction

abbrev timestamp_layouts : List String
timestamp_layouts =
    "2006-01-02T15:04:05.000" ∷ "2006-01-02T15:04:05" ∷ "2006-01-02T15:04:05.999999999Z07:00"
    ∷ "2006-01-02T15:04:05Z07:00" ∷ "2006-01-02" ∷ []

module _ {F T : Type 0} (c : Coder F T) where
  abbrev Extracted : Type 0
  Extracted = Result ValueError (Option (Value F T))

  parsed {ℓ} : {A : Type ℓ} → (A → Value F T) → ValueError → Option A → Extracted
  parsed f e none = err e
  parsed f e (some a) = ok (some (f a))

  -- The text "" is no value.
  parse_text {ℓ} :
      {A : Type ℓ}
      → (A → Value F T)
      → (String → ValueError)
      → (String → Option A)
      → String
      → Extracted
  parse_text f e parse s = if str_eq s "" then ok none else parsed f (e s) (parse s)

  pub to_string : Json F → Extracted
  to_string (text s) = ok (some (a_text s))
  to_string null = ok none
  to_string (boolean b) = ok (some (a_text (c.print (boolean b))))
  to_string (number x) = ok (some (a_text (c.print (number x))))
  to_string (array xs) = ok (some (a_text (c.print (array xs))))
  to_string (object fs) = ok (some (a_text (c.print (object fs))))

  pub to_float : Json F → Extracted
  to_float (number x) = ok (some (a_float x))
  to_float (text s) = parse_text a_float not_a_float c.parse_float s
  to_float null = ok none
  to_float _ = err unexpected

  pub to_int : Json F → Extracted
  to_int (number x) = ok (some (an_int (c.truncated x)))
  to_int (text s) = parse_text an_int not_an_int c.parse_int s
  to_int null = ok none
  to_int _ = err unexpected

  pub to_bool : Json F → Extracted
  to_bool (boolean b) = ok (some (a_bool b))
  to_bool (text s) = parse_text a_bool not_a_bool c.parse_bool s
  to_bool null = ok none
  to_bool _ = err unexpected

  -- The loop over the layouts.
  parse_layouts : List String → String → Option T
  parse_layouts [] s = none
  parse_layouts (layout ∷ layouts) s = elim (c.parse_time layout s) [
    | some t ↦ some t
    | none ↦ parse_layouts layouts s
  ]

  pub to_timestamp : Json F → Extracted
  to_timestamp (text s) = parse_text a_time not_a_time (parse_layouts timestamp_layouts) s
  to_timestamp _ = err unexpected

  pub to_json_string : Json F → Extracted
  to_json_string v = parsed a_text not_marshalled (c.marshal v)

  by_type : ColumnType → Json F → Extracted
  by_type double v = to_float v
  by_type bigint v = to_int v
  by_type ColumnType.boolean v = to_bool v
  by_type timestamp v = to_timestamp v
  by_type json v = to_json_string v
  by_type varchar v = to_string v

  -- `!ok || v == nil`
  unless_nil : (Json F → Extracted) → Option (Json F) → Extracted
  unless_nil f none = ok none
  unless_nil f (some null) = ok none
  unless_nil f (some v) = f v

  item_at : ℕ → Items F → Option (Json F)
  item_at i nil = none
  item_at zero (cons v vs) = some v
  item_at (suc i) (cons v vs) = item_at i vs

  field_of : String → Fields F → Option (Json F)
  field_of k end = none
  field_of k (field j v fs) = if str_eq j k then some v else field_of k fs

  coord : ℕ → Option (Json F) → Extracted
  coord idx (some (array coords)) = elim (item_at idx coords) [
    | none ↦ ok none
    | some v ↦ to_float v
  ]
  coord idx _ = ok none

  point : ℕ → Json F → Extracted
  point idx (object fs) = coord idx (field_of "coordinates" fs)
  point idx _ = ok none

  id_text : Json F → Extracted
  id_text (text s) = ok (some (a_text s))
  id_text v = ok (some (a_text (c.print v)))

  -- `extractScalar`, `extractPointCoord`, `extractRawJSON` and `extractSocrataID`
  pub extract : Extraction → Row F → Extracted
  unfolding unless_nil by_type point coord id_text
  extract (scalar name dt) row = unless_nil (by_type dt) (get name row)
  extract (point_coord name idx) row = unless_nil (point idx) (get name row)
  extract (raw_json name) row = unless_nil to_json_string (get name row)
  extract row_id row = unless_nil id_text (get ":id" row)
