-- ===== src/Investigate/Probes.antt =====
-- The rows of an indicator: runProbe and asFloat of internal/investigate/analyze.go. A query is asked
-- of database/sql; a scanned value is one of the types that its drivers give.
use civic_soda_quack.Prelude.{
  String, false, Option, none, some, List, [], ◌∷◌, Result, ok, err, ltb, length, if◌then◌else◌,
}
use civic_soda_quack.Prelude.Int.{ℤ, pos}
use civic_soda_quack.Investigate.{Numbers, Arg, int, Point, Probe, PlannedProbe, scale_of}

-- A big.Float stands as the nearest float64, a float32 as the float64 it converts to; `none` is nil.
pub data DriverValue (F T : Type 0) : Type 0 where
  float64 float32 big_float_value : F → DriverValue F T
  int64 int32 int_value big_int_value : ℤ → DriverValue F T
  big_int : Option ℤ → DriverValue F T
  big_float : Option F → DriverValue F T
  bytes_value string_value : String → DriverValue F T
  time : T → DriverValue F T
  time_pointer : Option T → DriverValue F T
  other_value : DriverValue F T

-- A sql.Rows: the names of its columns, what each Next and Scan give, and the error behind them.
pub record Rows (F T : Type 0) : Type 0 where
  pub columns : Result String (List String)
  pub scans : List (Result String (List (DriverValue F T)))
  pub rows_err : Option String

module _ {F T : Type 0} (of_int : ℤ → F) (parse_float : String → Option F)
    (trim : String → String) where
  -- `asFloat`
  pub as_float : DriverValue F T → Option F
  as_float (float64 f) = some f
  as_float (float32 f) = some f
  as_float (int64 n) = some (of_int n)
  as_float (int32 n) = some (of_int n)
  as_float (int_value n) = some (of_int n)
  as_float (big_int none) = none
  as_float (big_int (some n)) = some (of_int n)
  as_float (big_int_value n) = some (of_int n)
  as_float (big_float none) = none
  as_float (big_float (some f)) = some f
  as_float (bytes_value s) = parse_float (trim s)
  as_float (string_value s) = parse_float (trim s)
  as_float (big_float_value f) = none
  as_float (time t) = none
  as_float (time_pointer t) = none
  as_float other_value = none

module _ {F T : Type 0} (nm : Numbers F) (number : DriverValue F T → Option F) where
  abbrev point_of : F → F → F → F → Point F
  point_of period value denominator indicator = record {
    period = nm.to_int period;
    value = value;
    denominator = denominator;
    indicator = indicator;
    complete = false;
  }

  pub rated : Probe F → F → F → Option F → Option (Point F)
  unfolding scale_of
  rated probe period value none = none
  rated probe period value (some denom) =
      if nm.same denom nm.nought
      then none
      else some (point_of period value denom (nm.times (nm.over value denom) (scale_of nm probe)))

  -- A row of two columns, or of more.
  pub valued : Probe F → List (DriverValue F T) → Option F → Option F → Option (Point F)
  unfolding rated
  valued probe rest none value = none
  valued probe rest (some period) none = none
  valued probe [] (some period) (some value) = some (point_of period value nm.nought value)
  valued probe (d ∷ ds) (some period) (some value) = rated probe period value (number d)

  pub read_row : Probe F → List (DriverValue F T) → Option (Point F)
  unfolding valued
  read_row probe [] = none
  read_row probe (a ∷ []) = none
  read_row probe (a ∷ b ∷ rest) = valued probe rest (number a) (number b)

  abbrev pub and_point : Option (Point F) → List (Point F) → List (Point F)
  and_point none ps = ps
  and_point (some p) ps = p ∷ ps

  abbrev pub and_row :
      Option (Point F) → Result String (List (Point F)) → Result String (List (Point F))
  and_row p (err e) = err e
  and_row p (ok ps) = ok (and_point p ps)

  -- The loop over the rows.
  pub read_rows :
      Probe F
      → Option String
      → List (Result String (List (DriverValue F T)))
      → Result String (List (Point F))
  unfolding read_row
  read_rows probe (some e) [] = err e
  read_rows probe none [] = ok []
  read_rows probe rows_err (err e ∷ scans) = err e
  read_rows probe rows_err (ok row ∷ scans) =
      and_row (read_row probe row) (read_rows probe rows_err scans)

  abbrev pub some_periods : Result String (List (Point F)) → Result String (List (Point F))
  some_periods (err e) = err e
  some_periods (ok []) = err "no periods returned"
  some_periods (ok (p ∷ ps)) = ok (p ∷ ps)

  module _ (sprintf : String → List (Arg F) → String) where
    pub read_columns :
        Probe F → Rows F T → Result String (List String) → Result String (List (Point F))
    unfolding read_rows
    read_columns probe rows (err e) = err e
    read_columns probe rows (ok cols) =
        if ltb (length cols) 2
        then err (
            sprintf
              "probe returned %d columns; it must return period, value and optionally denominator"
              (int (pos (length cols)) ∷ []))
        else some_periods (read_rows probe rows.rows_err rows.scans)

    pub read_probe : Probe F → Result String (Rows F T) → Result String (List (Point F))
    unfolding read_columns
    read_probe probe (err e) = err e
    read_probe probe (ok rows) = read_columns probe rows rows.columns

    -- `runProbe`
    pub run_probe :
        (String → Result String (Rows F T)) → PlannedProbe F → Result String (List (Point F))
    unfolding read_probe
    run_probe query pp = read_probe pp.probe (query pp.sql)
