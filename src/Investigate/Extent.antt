-- ===== src/Investigate/Extent.antt =====
-- Where the record of a dataset begins and ends: measureExtent and asTime of
-- internal/investigate/validate.go. A time is an element of `T`.
pub mod Spans
use civic_soda_quack.Prelude.{
  ℕ, String, Bool, true, false, Option, none, some, List, [], ◌∷◌, Result, ok, err, if◌then◌else◌,
}
use civic_soda_quack.Prelude.Int.{ℤ, pos, ◌+ℤ◌, ◌-ℤ◌}
use civic_soda_quack.Investigate.{Coverage}
use civic_soda_quack.Investigate.Probes.{DriverValue, time, time_pointer, string_value, Rows}

-- What is used of a time.Time; `date t y m d` is midnight of the day at the location of `t`.
pub record Times (T : Type 0) : Type 0 where
  pub year : T → ℤ
  pub date : T → ℤ → ℕ → ℕ → T
  pub is_after : T → T → Bool
  pub is_before : T → T → Bool
  pub is_zero : T → Bool
  pub format : String → T → String
  pub parse : String → String → Option T

module _ {T : Type 0} (ts : Times T) where
  pub first_parsed : List String → String → Option T
  first_parsed [] s = none
  first_parsed (layout ∷ layouts) s = elim (ts.parse layout s) [
    | some t ↦ some t
    | none ↦ first_parsed layouts s
  ]

  abbrev pub not_zero : T → Option T
  not_zero t = if ts.is_zero t then none else some t

module _ {F T : Type 0} (ts : Times T) where
  -- `asTime`; a layout is named as in the source, RFC3339 written out.
  pub as_time : DriverValue F T → Option T
  unfolding first_parsed
  as_time (time t) = not_zero ts t
  as_time (time_pointer none) = none
  as_time (time_pointer (some t)) = not_zero ts t
  as_time (string_value s) =
      first_parsed ts ("2006-01-02T15:04:05Z07:00" ∷ "2006-01-02 15:04:05" ∷ "2006-01-02" ∷ []) s
  as_time _ = none

module _ {T : Type 0} (ts : Times T) where
  abbrev pub starts_late : T → Bool
  starts_late first = ts.is_after first (ts.date first (ts.year first) 1 1)

  abbrev pub ends_early : T → Bool
  ends_early last = ts.is_before last (ts.date last (ts.year last) 12 31)

  -- The coverage of a record from `first` to `last`.
  pub spanned : T → T → Coverage → Coverage
  spanned first last cov = record cov {
    known = true;
    first = ts.format "2006-01-02" first;
    last = ts.format "2006-01-02" last;
    first_complete = if starts_late first then ts.year first +ℤ pos 1 else ts.year first;
    partial_first = if starts_late first then ts.year first else cov.partial_first;
    last_complete = if ends_early last then ts.year last -ℤ pos 1 else ts.year last;
    partial = if ends_early last then ts.year last else cov.partial;
  }

  pub between : Option T → Option T → Coverage → Coverage
  unfolding spanned
  between none last cov = cov
  between (some first) none cov = cov
  between (some first) (some last) cov = spanned first last cov

module _ {F T : Type 0} (ts : Times T) where
  -- Only a first row of two values that was scanned with no error counts.
  pub extent_of :
      Option String → List (Result String (List (DriverValue F T))) → Coverage → Coverage
  unfolding between as_time
  extent_of none (ok (lo ∷ hi ∷ []) ∷ scans) cov = between ts (as_time ts lo) (as_time ts hi) cov
  extent_of _ _ cov = cov

  pub read_extent : Result String (Rows F T) → Coverage → Coverage
  unfolding extent_of
  read_extent (err e) cov = cov
  read_extent (ok rows) cov = extent_of rows.rows_err rows.scans cov

  -- `measureExtent`, with the text of its statement as `extent_sql` of the column and the view.
  pub measure_extent :
      (String → String → String)
      → (String → Result String (Rows F T))
      → String
      → String
      → Coverage
      → Coverage
  unfolding read_extent
  measure_extent extent_sql query view column cov = read_extent (query (extent_sql column view)) cov
