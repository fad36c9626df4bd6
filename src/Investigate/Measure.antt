-- ===== src/Investigate/Measure.antt =====
-- The measurement of an indicator: internal/investigate/analyze.go, behind the rows of a probe.
pub mod Settled
pub mod Windows
use civic_soda_quack.Prelude.{
  ℕ, ◌-◌, String, Bool, true, false, ◌&&◌, Option, none, some, List, [], ◌∷◌, ◌++◌, map, Result, ok,
  err, str_eq, if◌then◌else◌, length, drop, str_append,
}
use civic_soda_quack.Prelude.Int.{ℤ, ◌-ℤ◌, leb_ℤ, eqb_ℤ}
use civic_soda_quack.Investigate.{
  Direction, up, down, flat, same_direction, Numbers, Arg, int, text, float, Point, Finding,
  Unanswered, Analysis, PlannedProbe, Coverage, coverage_for, abs,
}

-- BaselineWindow
abbrev pub baseline_window : ℕ
baseline_window = 3

-- Whether `markComplete` marks a period, of the coverage that it found.
pub is_complete : Option Coverage → ℤ → ℤ → Bool
is_complete none settles period = false
is_complete (some cov) settles period =
    cov.known && leb_ℤ cov.first_complete period && leb_ℤ period (cov.last_complete -ℤ settles)

module _ {F : Type 0} where
  -- `markComplete`
  pub mark_complete : List (Point F) → List Coverage → PlannedProbe F → List (Point F)
  unfolding is_complete
  mark_complete series coverage pp =
      map {A = Point F} {B = Point F}
        (λ p. record p {
          complete = is_complete (coverage_for pp.concept coverage) pp.probe.settles_after p.period;
        })
        series

  pub complete_of : List (Point F) → List (Point F)
  complete_of [] = []
  complete_of (p ∷ ps) = let rest = complete_of ps in if p.complete then p ∷ rest else rest

  -- What `Analyze` makes of a measurement.
  pub relabelled : PlannedProbe F → Result String (Finding F) → Result Unanswered (Finding F)
  relabelled pp (err why) = err (record { probe = pp.name; asks = pp.asks; reason = why })
  relabelled pp (ok f) = ok (record f { sql = pp.sql; caveats = pp.probe.caveats })

  pub add_answer : Result Unanswered (Finding F) → Analysis F → Analysis F
  add_answer (err u) a = record a { unanswered = a.unanswered ++ u ∷ [] }
  add_answer (ok f) a = record a { findings = a.findings ++ f ∷ [] }

  -- All but the last point, and of these the last ones of the window.
  pub init : Point F → List (Point F) → List (Point F)
  init p [] = []
  init p (q ∷ qs) = p ∷ init q qs

  pub last_of : Point F → List (Point F) → Point F
  last_of p [] = p
  last_of p (q ∷ qs) = last_of q qs

  pub in_window : List (Point F) → List (Point F)
  in_window base = drop (length base - baseline_window) base

module _ {F : Type 0} (nm : Numbers F) where
  -- A sum from left to right.
  pub sum_of : F → (Point F → F) → List (Point F) → F
  sum_of acc f [] = acc
  sum_of acc f (p ∷ ps) = sum_of (nm.plus acc (f p)) f ps

  -- `directionOf`
  pub direction_of : F → Direction
  direction_of change =
      if nm.less nm.material_change change
      then up
      else if nm.less change (nm.negate nm.material_change)
      then down
      else flat

  -- The finding of a baseline that is not 0, before its headline.
  pub moved : PlannedProbe F → List (Point F) → F → Point F → ℤ → ℤ → Finding F
  unfolding direction_of
  moved pp series baseline latest from to =
      let change = nm.over (nm.minus latest.indicator baseline) baseline in
      record {
        probe = pp.name;
        asks = pp.asks;
        direction = direction_of change;
        change = change;
        latest = latest.indicator;
        latest_period = latest.period;
        baseline = baseline;
        baseline_from = from;
        baseline_to = to;
        unit = pp.unit;
        per = pp.per;
        supports = same_direction (direction_of change) pp.supports;
        headline = "";
        series = series;
        sql = "";
        caveats = [];
        withdrawn = false;
        withdrawn_by = "";
        challenges = [];
      }

  -- The mean of the indicators of a window.
  pub mean : (Point F → F) → List (Point F) → F
  unfolding sum_of
  mean f base = nm.over (sum_of nm.nought f base) (nm.of_count (length base))

module _ {F : Type 0} (nm : Numbers F) (sprintf : String → List (Arg F) → String) where
  -- `periodRange`
  pub period_range : ℤ → ℤ → String
  period_range from to =
      if eqb_ℤ from to
      then sprintf "%d" (int from ∷ [])
      else sprintf "%d–%d" (int from ∷ int to ∷ [])

  -- `headline`
  pub headline : PlannedProbe F → Finding F → String
  unfolding abs period_range
  headline pp f =
      let magnitude = sprintf "%.0f%%" (float (nm.times (abs nm f.change) nm.hundred) ∷ []) in
      let window =
        sprintf "%d vs %s mean"
          (int f.latest_period ∷ text (period_range f.baseline_from f.baseline_to) ∷ []) in
      let fell = same_direction f.direction down in
      let reading = if fell then pp.probe.fall_means else pp.probe.rise_means in
      if same_direction f.direction flat
      then sprintf "%s held steady (%s, %s)"
          (text pp.unit ∷ text (str_append magnitude " change") ∷ text window ∷ [])
      else if str_eq pp.per ""
      then sprintf "%s %s %s (%s) — %s" (
          text magnitude
          ∷ text (if fell then "fewer" else "more")
          ∷ text pp.unit
          ∷ text window
          ∷ text reading
          ∷ [])
      else sprintf "%s %s %s per %s (%s) — %s" (
          text magnitude
          ∷ text (if fell then "lower" else "higher")
          ∷ text pp.unit
          ∷ text pp.per
          ∷ text window
          ∷ text reading
          ∷ [])

  -- What is measured against a window of at least one point.
  pub against :
      PlannedProbe F → List (Point F) → Point F → List (Point F) → Result String (Finding F)
  unfolding mean moved headline last_of
  against pp series latest [] = err ""
  against pp series latest (b ∷ bs) =
      let baseline = mean nm (λ p. p.indicator) (b ∷ bs) in
      let f = moved nm pp series baseline latest b.period (last_of b bs).period in
      if nm.same baseline nm.nought
      then err
          "the baseline periods hold no records, so a change from them has no percentage to report"
      else ok (record f { headline = headline pp f })

  -- `measure`, of the complete points of the series.
  pub measure_complete :
      PlannedProbe F → List (Point F) → List (Point F) → Result String (Finding F)
  unfolding against init last_of in_window
  measure_complete pp series [] =
      err
        "no period of this indicator is covered end to end, so there is nothing that can be compared without comparing a part-year against a whole one"
  measure_complete pp series (p ∷ []) = err (
      sprintf "only one complete period (%d) is held, and a trend needs at least two"
        (int p.period ∷ []))
  measure_complete pp series (p ∷ q ∷ qs) =
      against pp series (last_of q qs) (in_window (init p (q ∷ qs)))

  -- `measure`
  pub measure : PlannedProbe F → List (Point F) → Result String (Finding F)
  unfolding measure_complete complete_of
  measure pp series = measure_complete pp series (complete_of series)

  -- What `Analyze` appends for a probe that is not skipped, of what `runProbe` gave.
  pub answer :
      List Coverage
      → PlannedProbe F
      → Result String (List (Point F))
      → Result Unanswered (Finding F)
  unfolding measure mark_complete relabelled
  answer coverage pp (err e) = err (record {
    probe = pp.name;
    asks = pp.asks;
    reason = str_append "the indicator could not be computed: " e;
  })
  answer coverage pp (ok series) = relabelled pp (measure pp (mark_complete series coverage pp))

  -- The loop of `Analyze`; a probe is run by `run_probe`.
  pub analyze_from :
      (PlannedProbe F → Result String (List (Point F)))
      → List Coverage
      → Analysis F
      → List (PlannedProbe F)
      → Analysis F
  unfolding answer add_answer
  analyze_from run_probe coverage a [] = a
  analyze_from run_probe coverage a (pp ∷ pps) =
      analyze_from run_probe coverage
        (if pp.skipped then a else add_answer (answer coverage pp (run_probe pp)) a) pps

  -- `Analyze`
  pub analyze :
      (PlannedProbe F → Result String (List (Point F)))
      → List Coverage
      → List (PlannedProbe F)
      → Analysis F
  unfolding analyze_from
  analyze run_probe coverage pps =
      analyze_from run_probe coverage (record { findings = []; unanswered = [] }) pps
