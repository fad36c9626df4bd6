-- ===== src/Investigate/Challenges/Stands.antt =====
-- What a finding has shown that counts for the verdict.
use civic_soda_quack.Prelude.{
  ◌≡◌, ◌⊎◌, ◌↔◌, refl, inl, inr, String, true, false, Option, none, some, List, [], ◌∷◌, str_eq,
  arith, Bool-cases,
}
use civic_soda_quack.Prelude.Int.{ℤ, pos, ◌≤ℤ◌}
use civic_soda_quack.Investigate.{
  Direction, down, same_direction, Numbers, Arg, Point, ChallengeResult, Finding, PlannedProbe,
  Coverage, Evidence, coverage_for, abs, concept_of, tables_of,
}
use civic_soda_quack.Investigate.Changes.{
  worst_short, assessed_of, component_change, biggest_step, window_points,
}
use civic_soda_quack.Investigate.Challenges.{
  partial_period, challenge_partial_period, shortfall, shortfall_of, challenge_coverage_shortfall,
  denominator_moved, challenge_denominator, break_of, discontinuity, challenge_discontinuity,
  challenge_sparse_baseline, first_withdrawer, challenges_of, taken_down, challenged,
}

module _ {F : Type 0} (nm : Numbers F) where
  -- The measured period is inside what the data covers.
  abbrev pub IsFinished : Option Coverage → ℤ → Type 0
  IsFinished none period = ⊥
  IsFinished (some cov) period = (cov.known ≡ true) × (period ≤ℤ cov.last_complete)

  -- The rows that the local copy lacks do not explain a fall.
  abbrev pub OutweighsGap : List String → Option (List (String × F)) → Direction → F → Type 0
  OutweighsGap tables none direction change = Unit
  OutweighsGap tables (some datasets) direction change =
      (same_direction direction down ≡ false)
      ⊎ (nm.less_eq (abs nm change) (worst_short nm tables nm.nought "" datasets).0 ≡ false)

  -- Not: the numerator stood still and the denominator moved.
  abbrev pub IsNumerators : Option (F × F) → Type 0
  IsNumerators none = Unit
  IsNumerators (some (num, den)) =
      (nm.less (abs nm num) nm.material_change ≡ false)
      ⊎ (nm.less nm.material_change (abs nm den) ≡ false)

  -- What a finding has to show to stand.
  abbrev pub Stands :
      List Coverage → Option (Evidence F) → List (PlannedProbe F) → Finding F → Type 0
  Stands coverage evidence plan f =
      IsFinished (coverage_for (concept_of f.probe plan) coverage) f.latest_period
      × OutweighsGap (tables_of f.probe plan) (assessed_of evidence) f.direction f.change
      × ((str_eq f.per "" ≡ true) ⊎ IsNumerators (component_change nm f))

  module _ (sprintf : String → List (Arg F) → String) where
    partial_period_iff :
        (f : Finding F) (o : Option Coverage)
        → ((partial_period nm sprintf f o).withdrew ≡ false) ↔ IsFinished o f.latest_period
    unfolding partial_period
    partial_period_iff f none = ((λ h. cc), (λ h. absurd h))
    partial_period_iff f (some cov) = ground arith

    shortfall_iff :
        (f : Finding F) (w : F × String)
        → ((shortfall nm sprintf f w).withdrew ≡ false)
          ↔ ((same_direction f.direction down ≡ false) ⊎ (nm.less_eq (abs nm f.change) w.0 ≡ false))
    unfolding shortfall
    shortfall_iff f (worst, table) = ground arith

    shortfall_of_iff :
        (f : Finding F) (tables : List String) (o : Option (List (String × F)))
        → ((shortfall_of nm sprintf f tables o).withdrew ≡ false)
          ↔ OutweighsGap tables o f.direction f.change
    unfolding shortfall_of
    shortfall_of_iff f tables none = ((λ h. tt), (λ h. refl))
    shortfall_of_iff f tables (some ds) = shortfall_iff f (worst_short nm tables nm.nought "" ds)

    denominator_moved_iff :
        (o : Option (F × F)) → ((denominator_moved nm sprintf o).withdrew ≡ false) ↔ IsNumerators o
    unfolding denominator_moved
    denominator_moved_iff none = ((λ h. tt), (λ h. refl))
    denominator_moved_iff (some (num, den)) = ground arith

    denominator_iff :
        (f : Finding F)
        → ((challenge_denominator nm sprintf f).withdrew ≡ false)
          ↔ ((str_eq f.per "" ≡ true) ⊎ IsNumerators (component_change nm f))
    unfolding challenge_denominator
    denominator_iff f = elim (Bool-cases (str_eq f.per "")) [
      | inl y ↦ rw y ((λ h. inl refl), (λ h. refl))
      | inr z ↦ rw z (
          let d = denominator_moved_iff (component_change nm f) in
          ((λ h. inr (d.0 h)), (λ h. elim h [ inl e ↦ cc | inr n ↦ d.1 n ])))
    ]

    -- The other two only annotate.
    break_of-withdrew : (f : Finding F) (w : F × ℤ) → (break_of nm sprintf f w).withdrew ≡ false
    unfolding break_of
    break_of-withdrew f (biggest, at) = ground arith

    discontinuity-withdrew :
        (f : Finding F) (ps : List (Point F)) → (discontinuity nm sprintf f ps).withdrew ≡ false
    unfolding discontinuity
    discontinuity-withdrew f [] = refl
    discontinuity-withdrew f (a ∷ []) = refl
    discontinuity-withdrew f (a ∷ b ∷ []) = refl
    discontinuity-withdrew f (a ∷ b ∷ c ∷ ps) =
        break_of-withdrew f (biggest_step nm nm.nought (pos 0) a (b ∷ c ∷ ps))

    challenge_sparse_baseline-withdrew :
        (f : Finding F) → (challenge_sparse_baseline nm sprintf f).withdrew ≡ false
    unfolding challenge_sparse_baseline
    challenge_sparse_baseline-withdrew f = ground arith

    first_withdrawer_iff :
        (c₁ c₂ c₃ c₄ c₅ : ChallengeResult) (f : Finding F)
        → f.withdrawn ≡ false
        → c₄.withdrew ≡ false
        → c₅.withdrew ≡ false
        → ((taken_down (first_withdrawer (c₁ ∷ c₂ ∷ c₃ ∷ c₄ ∷ c₅ ∷ [])) f).withdrawn ≡ false)
          ↔ ((c₁.withdrew ≡ false) × (c₂.withdrew ≡ false) × (c₃.withdrew ≡ false))
    unfolding first_withdrawer taken_down
    first_withdrawer_iff c₁ c₂ c₃ c₄ c₅ f h k l = ground arith

    challenged-withdrawn_iff :
        (coverage : List Coverage) (evidence : Option (Evidence F)) (plan : List (PlannedProbe F))
        (f : Finding F)
        → f.withdrawn ≡ false
        → ((challenged nm sprintf coverage evidence plan f).withdrawn ≡ false)
          ↔ Stands coverage evidence plan f
    unfolding challenged challenges_of challenge_partial_period challenge_coverage_shortfall
        challenge_discontinuity
    challenged-withdrawn_iff coverage evidence plan f h =
        let results = challenges_of nm sprintf coverage evidence plan f in
        let i =
          first_withdrawer_iff (challenge_partial_period nm sprintf f coverage plan)
            (challenge_coverage_shortfall nm sprintf f evidence plan)
            (challenge_denominator nm sprintf f) (challenge_discontinuity nm sprintf f)
            (challenge_sparse_baseline nm sprintf f) (record f { challenges = results }) h
            (discontinuity-withdrew f (window_points f.baseline_from f.latest_period f.series))
            (challenge_sparse_baseline-withdrew f) in
        let p = partial_period_iff f (coverage_for (concept_of f.probe plan) coverage) in
        let s = shortfall_of_iff f (tables_of f.probe plan) (assessed_of evidence) in
        let d = denominator_iff f in
        (
          (λ e. let w = i.0 e in (p.0 w.0, s.0 w.1, d.0 w.2)),
          (λ st. i.1 (p.1 st.0, s.1 st.1, d.1 st.2)),
        )

    -- The test reads nothing that the challenges write.
    taken_down-Stands :
        (coverage : List Coverage) (evidence : Option (Evidence F)) (plan : List (PlannedProbe F))
        (f : Finding F) (results : List ChallengeResult) (o : Option ChallengeResult)
        → Stands coverage evidence plan f
          ↔ Stands coverage evidence plan (taken_down o (record f { challenges = results }))
    unfolding taken_down component_change assessed_of
    taken_down-Stands coverage evidence plan f results none = ((λ h. h), (λ h. h))
    taken_down-Stands coverage evidence plan f results (some c) = ((λ h. h), (λ h. h))

    pub challenged_iff :
        (coverage : List Coverage) (evidence : Option (Evidence F)) (plan : List (PlannedProbe F))
        (f : Finding F)
        → f.withdrawn ≡ false
        → ((challenged nm sprintf coverage evidence plan f).withdrawn ≡ false)
          ↔ Stands coverage evidence plan (challenged nm sprintf coverage evidence plan f)
    unfolding challenged
    challenged_iff coverage evidence plan f h =
        let w = challenged-withdrawn_iff coverage evidence plan f h in
        let results = challenges_of nm sprintf coverage evidence plan f in
        let t = taken_down-Stands coverage evidence plan f results (first_withdrawer results) in
        ((λ e. t.0 (w.0 e)), (λ e. w.1 (t.1 e)))
