-- ===== src/Investigate/Changes.antt =====
-- What the challenges of internal/investigate/challenge.go measure: shortfalls, changes and steps.
use civic_soda_quack.Prelude.{
  String, ◌&&◌, ◌||◌, not, Option, none, some, List, [], ◌∷◌, if◌then◌else◌,
}
use civic_soda_quack.Prelude.Int.{ℤ, pos, leb_ℤ, eqb_ℤ}
use civic_soda_quack.Prelude.Texts.{contains}
use civic_soda_quack.Investigate.{Numbers, Point, Finding, Evidence, abs}
use civic_soda_quack.Investigate.Measure.{mean}

module _ {F : Type 0} where
  -- The baseline of `componentChange`: the last point of the measured period, and the complete points of
  -- the averaged ones.
  unfoldable pub latest_point : ℤ → Option (Point F) → List (Point F) → Option (Point F)
  latest_point period found [] = found
  latest_point period found (p ∷ ps) =
      latest_point period (if eqb_ℤ p.period period then some p else found) ps

  unfoldable pub base_points : ℤ → ℤ → ℤ → List (Point F) → List (Point F)
  base_points period from to [] = []
  base_points period from to (p ∷ ps) =
      let rest = base_points period from to ps in
      if eqb_ℤ p.period period
      then rest
      else if leb_ℤ from p.period && leb_ℤ p.period to && p.complete
      then p ∷ rest
      else rest

  -- The window of `challengeDiscontinuity`.
  unfoldable pub window_points : ℤ → ℤ → List (Point F) → List (Point F)
  window_points from to [] = []
  window_points from to (p ∷ ps) =
      let rest = window_points from to ps in
      if leb_ℤ from p.period && leb_ℤ p.period to && p.complete then p ∷ rest else rest

  unfoldable pub assessed_of : Option (Evidence F) → Option (List (String × F))
  assessed_of none = none
  assessed_of (some e) = if e.assessed then some e.datasets else none

module _ {F : Type 0} (nm : Numbers F) where
  -- The largest shortfall of the tables that a probe reads, from the first of them that has it.
  unfoldable pub worst_short : List String → F → String → List (String × F) → F × String
  worst_short tables worst table [] = (worst, table)
  worst_short tables worst table ((t, completeness) ∷ ds) =
      let short = nm.minus nm.one completeness in
      let more = contains tables t && nm.less worst short in
      worst_short tables (if more then short else worst) (if more then t else table) ds

  -- `componentChange` on the latest point and the averaged ones.
  unfoldable pub component_change_of : Option (Point F) → List (Point F) → Option (F × F)
  component_change_of none base = none
  component_change_of (some latest) [] = none
  component_change_of (some latest) (b ∷ bs) =
      let base_n = mean nm (λ p. p.value) (b ∷ bs) in
      let base_d = mean nm (λ p. p.denominator) (b ∷ bs) in
      if eqb_ℤ latest.period (pos 0) || nm.same base_n nm.nought || nm.same base_d nm.nought
      then none
      else some (
        nm.over (nm.minus latest.value base_n) base_n,
        nm.over (nm.minus latest.denominator base_d) base_d,
      )

  unfoldable pub component_change : Finding F → Option (F × F)
  unfolding component_change_of latest_point base_points
  component_change f =
      component_change_of (latest_point f.latest_period none f.series)
        (base_points f.latest_period f.baseline_from f.baseline_to f.series)

  -- The biggest step between neighbours, and the period where it ends.
  unfoldable pub biggest_step : F → ℤ → Point F → List (Point F) → F × ℤ
  unfolding abs
  biggest_step biggest at prev [] = (biggest, at)
  biggest_step biggest at prev (p ∷ ps) =
      let jump = abs nm (nm.over (nm.minus p.indicator prev.indicator) prev.indicator) in
      let more = not (nm.same prev.indicator nm.nought) && nm.less biggest jump in
      biggest_step (if more then jump else biggest) (if more then p.period else at) p ps
