-- ===== src/Investigate/Challenges.antt =====
-- The attempts to explain a finding away: internal/investigate/challenge.go.
pub mod Stands
pub mod Withstands
use civic_soda_quack.Prelude.{
  ℕ, String, Bool, true, false, ◌&&◌, ◌||◌, not, Option, none, some, List, [], ◌∷◌, map, str_eq,
  if◌then◌else◌, ltb, length,
}
use civic_soda_quack.Prelude.Int.{ℤ, pos, ◌+ℤ◌, ◌-ℤ◌, ltb_ℤ, leb_ℤ, eqb_ℤ}
use civic_soda_quack.Prelude.Texts.{contains}
use civic_soda_quack.Investigate.{
  Direction, down, same_direction, Numbers, Arg, int, text, float, Point, ChallengeResult, Finding,
  Analysis, PlannedProbe, Coverage, Evidence, coverage_for, abs, concept_of, tables_of,
}
use civic_soda_quack.Investigate.Measure.{sum_of, mean}
use civic_soda_quack.Investigate.Changes.{
  latest_point, base_points, window_points, assessed_of, worst_short, component_change_of,
  component_change, biggest_step,
}

abbrev pub result : String → String → Bool → Bool → String → ChallengeResult
result name asks survived withdrew verdict = record {
  name = name;
  asks = asks;
  survived = survived;
  verdict = verdict;
  withdrew = withdrew;
}

-- The loop over the results: the first one that withdrew takes the finding down.
pub first_withdrawer : List ChallengeResult → Option ChallengeResult
first_withdrawer [] = none
first_withdrawer (c ∷ cs) = if c.withdrew then some c else first_withdrawer cs

module _ {F : Type 0} where
  unfoldable pub taken_down : Option ChallengeResult → Finding F → Finding F
  taken_down none f = f
  taken_down (some c) f = record f { withdrawn = true; withdrawn_by = c.name }

module _ {F : Type 0} (nm : Numbers F) (sprintf : String → List (Arg F) → String) where
  abbrev percent : F → Arg F
  percent f = float (nm.times f nm.hundred)

  -- `challengePartialPeriod`, of the coverage of the probe's concept.
  pub partial_period : Finding F → Option Coverage → ChallengeResult
  partial_period f none =
      result "partial-period" "Is the fall just a period that has not finished yet?" false true
        "coverage could not be measured, so it cannot be shown that the measured period was complete"
  partial_period f (some cov) =
      let answered =
        result "partial-period" "Is the fall just a period that has not finished yet?" in
      if not cov.known
      then answered false true
          "coverage could not be measured, so it cannot be shown that the measured period was complete"
      else if ltb_ℤ cov.last_complete f.latest_period
      then answered false true (
          sprintf "%d is not covered end to end (%s ends %s)"
            (int f.latest_period ∷ text cov.table ∷ text cov.last ∷ []))
      else if not (eqb_ℤ cov.partial (pos 0))
      then answered true false (
          sprintf "no — %d is complete; the part-finished %d was excluded"
            (int f.latest_period ∷ int cov.partial ∷ []))
      else answered true false (sprintf "no — %d is covered end to end" (int f.latest_period ∷ []))

  pub challenge_partial_period : Finding F → List Coverage → List (PlannedProbe F) → ChallengeResult
  unfolding partial_period
  challenge_partial_period f coverage plan =
      partial_period f (coverage_for (concept_of f.probe plan) coverage)

  -- `challengeCoverageShortfall`; no report stands for a nil one.
  pub shortfall : Finding F → F × String → ChallengeResult
  unfolding abs
  shortfall f (worst, table) =
      let answered =
        result "local-copy-shortfall" "Is the fall really rows missing from the local copy?" in
      if same_direction f.direction down && nm.less_eq (abs nm f.change) worst
      then answered false true (
          sprintf
            "possibly — %s is %.0f%% short of the portal's count, which is enough to account for a %.0f%% fall on its own"
            (text table ∷ percent worst ∷ percent (abs nm f.change) ∷ []))
      else if nm.less nm.nought worst
      then answered true false (
          sprintf "no — the largest local shortfall is %.0f%%, smaller than the %.0f%% movement"
            (percent worst ∷ percent (abs nm f.change) ∷ []))
      else answered true false "no — the local copy matches the portal's reference count"

  -- Of the datasets of an assessed report.
  pub shortfall_of : Finding F → List String → Option (List (String × F)) → ChallengeResult
  unfolding shortfall worst_short
  shortfall_of f tables none =
      result "local-copy-shortfall" "Is the fall really rows missing from the local copy?" false
        false "the local copy could not be profiled against the portal's count"
  shortfall_of f tables (some datasets) = shortfall f (worst_short nm tables nm.nought "" datasets)

  pub challenge_coverage_shortfall :
      Finding F → Option (Evidence F) → List (PlannedProbe F) → ChallengeResult
  unfolding shortfall_of assessed_of
  challenge_coverage_shortfall f evidence plan =
      shortfall_of f (tables_of f.probe plan) (assessed_of evidence)

  -- `challengeDenominator`
  pub denominator_moved : Option (F × F) → ChallengeResult
  unfolding abs
  denominator_moved none =
      result "denominator-moved" "Did the rate move only because its denominator did?" false false
        "the numerator and denominator could not be compared separately"
  denominator_moved (some (num, den)) =
      let answered =
        result "denominator-moved" "Did the rate move only because its denominator did?" in
      if nm.less (abs nm num) nm.material_change && nm.less nm.material_change (abs nm den)
      then answered false true (
          sprintf
            "yes — the numerator moved %.0f%% while the denominator moved %.0f%%, so the rate change is a denominator effect"
            (percent num ∷ percent den ∷ []))
      else answered true false (
          sprintf "no — the numerator moved %.0f%% and the denominator %.0f%%"
            (percent num ∷ percent den ∷ []))

  pub challenge_denominator : Finding F → ChallengeResult
  unfolding denominator_moved component_change
  challenge_denominator f =
      if str_eq f.per ""
      then result "denominator-moved" "Did the rate move only because its denominator did?" true
          false "not applicable — this is a count, not a rate"
      else denominator_moved (component_change nm f)

  pub break_of : Finding F → F × ℤ → ChallengeResult
  unfolding abs
  break_of f (biggest, at) =
      let answered =
        result "series-break" "Is the series comparable across the window it was measured over?" in
      if nm.less (abs nm f.change) biggest && nm.less nm.material_change biggest
      then answered false false (
          sprintf
            "a %.0f%% step at %d is larger than the %.0f%% movement being reported — read the baseline as spanning a possible change in how this data is produced"
            (percent biggest ∷ int at ∷ percent (abs nm f.change) ∷ []))
      else answered true false (
          sprintf "no single-period step (largest %.0f%%) exceeds the reported movement"
            (percent biggest ∷ []))

  -- `challengeDiscontinuity`, of the points of its window.
  pub discontinuity : Finding F → List (Point F) → ChallengeResult
  unfolding break_of biggest_step
  discontinuity f (a ∷ b ∷ c ∷ ps) = break_of f (biggest_step nm nm.nought (pos 0) a (b ∷ c ∷ ps))
  discontinuity f _ =
      result "series-break" "Is the series comparable across the window it was measured over?" true
        false "too few periods to look for a break"

  pub challenge_discontinuity : Finding F → ChallengeResult
  unfolding discontinuity window_points
  challenge_discontinuity f =
      discontinuity f (window_points f.baseline_from f.latest_period f.series)

  -- `challengeSparseBaseline`
  pub challenge_sparse_baseline : Finding F → ChallengeResult
  challenge_sparse_baseline f =
      let n = (f.baseline_to -ℤ f.baseline_from) +ℤ pos 1 in
      let answered =
        result "sparse-baseline"
          "Is there enough history behind the baseline to compare against?" in
      if ltb_ℤ n (pos 3)
      then answered false false (
          sprintf
            "the baseline averages %d period(s), not %d — a single unusual year carries more of it than intended"
            (int n ∷ int (pos 3) ∷ []))
      else answered true false (sprintf "no — the baseline averages %d periods" (int n ∷ []))

  pub challenges_of :
      List Coverage → Option (Evidence F) → List (PlannedProbe F) → Finding F → List ChallengeResult
  unfolding challenge_partial_period challenge_coverage_shortfall challenge_denominator
      challenge_discontinuity challenge_sparse_baseline
  challenges_of coverage evidence plan f =
      challenge_partial_period f coverage plan
      ∷ challenge_coverage_shortfall f evidence plan
      ∷ challenge_denominator f
      ∷ challenge_discontinuity f
      ∷ challenge_sparse_baseline f
      ∷ []

  unfoldable pub challenged :
      List Coverage → Option (Evidence F) → List (PlannedProbe F) → Finding F → Finding F
  unfolding challenges_of first_withdrawer taken_down
  challenged coverage evidence plan f =
      let results = challenges_of coverage evidence plan f in
      taken_down (first_withdrawer results) (record f { challenges = results })

  -- `Challenge`
  unfoldable pub challenge :
      List Coverage → Option (Evidence F) → List (PlannedProbe F) → Analysis F → Analysis F
  unfolding challenged
  challenge coverage evidence plan a = record a {
    findings = map (challenged coverage evidence plan) a.findings;
  }
