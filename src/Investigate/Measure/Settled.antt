-- ===== src/Investigate/Measure/Settled.antt =====
-- What a measurement rests on.
use civic_soda_quack.Prelude.{
  Option-cases, subst, suc, ◌≡◌, ◌↔◌, ◌⊎◌, refl, sym, ◌∙◌, ap, inl, inr, String, Bool, true, false,
  Option, none, some, List, [], ◌∷◌, ◌++◌, Result, ok, err, if◌then◌else◌, length, map, find,
  str_eq, All, Any, All-append, arith, Bool-cases,
}
use civic_soda_quack.Prelude.Int.{ℤ, ◌≤ℤ◌, ◌-ℤ◌, leb_ℤ→le}
use civic_soda_quack.Investigate.{
  Direction, up, down, flat, same_direction, Numbers, Arg, Point, Finding, Unanswered, Analysis,
  PlannedProbe, Coverage, coverage_for,
}
use civic_soda_quack.Investigate.Measure.{
  is_complete, mark_complete, complete_of, init, last_of, in_window, sum_of, mean, direction_of,
  moved, against, measure_complete, measure, answer, relabelled, add_answer, analyze_from, analyze,
}
use civic_soda_quack.Investigate.Measure.Windows.{
  IsWindow, before_window, before_window-append, in_window-IsWindow, init-append-last_of,
}

abbrev IsBetween : ℤ → ℤ → Option Coverage → Type 0
IsBetween settles y none = ⊥
IsBetween settles y (some cov) =
    (cov.known ≡ true) × (cov.first_complete ≤ℤ y) × (y ≤ℤ (cov.last_complete -ℤ settles))

bounds :
    (settles y : ℤ) (o : Option Coverage) → is_complete o settles y ≡ true → IsBetween settles y o
unfolding is_complete
bounds settles y none h = cc
bounds settles y (some cov) h =
    ground (arith, leb_ℤ→le cov.first_complete y, leb_ℤ→le y (cov.last_complete -ℤ settles))

within :
    (settles y : ℤ) (o : Option Coverage) → IsBetween settles y o → is_complete o settles y ≡ true
unfolding is_complete
within settles y none h = absurd h
within settles y (some cov) h = ground (arith, h.0, h.1, h.2)

pub coverage_for-find :
    (concept : String) (cs : List Coverage)
    → coverage_for concept cs ≡ find (λ c. str_eq c.concept concept) cs
unfolding coverage_for
coverage_for-find concept [] = refl
coverage_for-find concept (c ∷ cs) =
    ap (λ o. if str_eq c.concept concept then some c else o) (coverage_for-find concept cs)

-- What holds of both branches holds of a test.
either :
    {A : Type 0} (b : Bool) (P : A → Type 0) (x y : A)
    → P x
    → (b ≡ false → P y)
    → P (if b then x else y)
either true P x y h k = h
either false P x y h k = k refl

pub same_direction_iff : (d e : Direction) → (same_direction d e ≡ true) ↔ (d ≡ e)
same_direction_iff up up = ((λ h. refl), (λ h. refl))
same_direction_iff up down = ((λ h. cc), (λ h. cc))
same_direction_iff up flat = ((λ h. cc), (λ h. cc))
same_direction_iff down up = ((λ h. cc), (λ h. cc))
same_direction_iff down down = ((λ h. refl), (λ h. refl))
same_direction_iff down flat = ((λ h. cc), (λ h. cc))
same_direction_iff flat up = ((λ h. cc), (λ h. cc))
same_direction_iff flat down = ((λ h. cc), (λ h. cc))
same_direction_iff flat flat = ((λ h. refl), (λ h. refl))

module _ {F : Type 0} where
  -- A period that the coverage of the probe's concept spans and that has settled.
  abbrev pub IsSettled : List Coverage → PlannedProbe F → Point F → Type 0
  IsSettled coverage pp p =
      (cov : Coverage) × (find (λ c. str_eq c.concept pp.concept) coverage ≡ some cov)
      × (cov.known ≡ true)
      × (cov.first_complete ≤ℤ p.period)
      × (p.period ≤ℤ (cov.last_complete -ℤ pp.probe.settles_after))

  is_complete_iff :
      (coverage : List Coverage) (pp : PlannedProbe F) (p : Point F)
      → (is_complete (coverage_for pp.concept coverage) pp.probe.settles_after p.period ≡ true)
        ↔ IsSettled coverage pp p
  is_complete_iff coverage pp p = elim (Option-cases (coverage_for pp.concept coverage)) [
    | inl e ↦ (
      λ h. absurd (
          bounds pp.probe.settles_after p.period none
            (subst (λ o. is_complete o pp.probe.settles_after p.period ≡ true) e h)),
      λ h. absurd (let k = sym (coverage_for-find pp.concept coverage) in let l = h.1 in cc),
    )
    | inr (cov, e) ↦ (
      λ h.
          let b =
            bounds pp.probe.settles_after p.period (some cov)
              (subst (λ o. is_complete o pp.probe.settles_after p.period ≡ true) e h) in
          (cov, sym (coverage_for-find pp.concept coverage) ∙ e, b.0, b.1, b.2),
      λ h.
          subst (λ o. is_complete o pp.probe.settles_after p.period ≡ true)
            (sym (coverage_for-find pp.concept coverage ∙ h.1))
            (within pp.probe.settles_after p.period (some h.0) (h.2, h.3, h.4)),
    )
  ]

  abbrev pub marked : Bool → Point F → Point F
  marked b p = record p { complete = b }

  -- The points of a list that have a property, in their order and marked as complete.
  abbrev pub Picks : (Point F → Type 0) → List (Point F) → List (Point F) → Type 0
  Picks P [] picked = picked ≡ []
  Picks P (p ∷ ps) picked =
      (P p × ((rest : List (Point F)) × (picked ≡ marked true p ∷ rest) × Picks P ps rest))
      ⊎ ((P p → ⊥) × Picks P ps picked)

  -- All points of a list, marked as complete exactly where they have a property.
  abbrev pub Shows : (Point F → Type 0) → List (Point F) → List (Point F) → Type 0
  Shows P [] shown = shown ≡ []
  Shows P (p ∷ ps) shown =
      (b : Bool) × (rest : List (Point F)) × ((b ≡ true) ↔ P p)
      × (shown ≡ marked b p ∷ rest)
      × Shows P ps rest

  mark_complete-Shows :
      (coverage : List Coverage) (pp : PlannedProbe F) (raw : List (Point F))
      → Shows (IsSettled coverage pp) raw (mark_complete raw coverage pp)
  unfolding mark_complete
  mark_complete-Shows coverage pp [] = refl
  mark_complete-Shows coverage pp (p ∷ ps) = (
    is_complete (coverage_for pp.concept coverage) pp.probe.settles_after p.period,
    mark_complete ps coverage pp,
    is_complete_iff coverage pp p,
    refl,
    mark_complete-Shows coverage pp ps,
  )

  complete_of-Picks :
      (coverage : List Coverage) (pp : PlannedProbe F) (raw : List (Point F))
      → Picks (IsSettled coverage pp) raw (complete_of (mark_complete raw coverage pp))
  unfolding mark_complete complete_of
  complete_of-Picks coverage pp [] = refl
  complete_of-Picks coverage pp (p ∷ ps) =
      let rest = complete_of-Picks coverage pp ps in
      let i = is_complete_iff coverage pp p in
      elim (Bool-cases
        (is_complete (coverage_for pp.concept coverage) pp.probe.settles_after p.period)) [
          | inl y ↦ rw y (inl (i.0 y, (complete_of (mark_complete ps coverage pp), refl, rest)))
          | inr z ↦ rw z (inr ((λ h. let t = i.1 h in cc), rest))
        ]

module _ {F : Type 0} (nm : Numbers F) where
  -- Up and down are changes of more than the material one.
  abbrev pub HasDirection : Direction → F → Type 0
  HasDirection up c = nm.less nm.material_change c ≡ true
  HasDirection down c =
      (nm.less nm.material_change c ≡ false) × (nm.less c (nm.negate nm.material_change) ≡ true)
  HasDirection flat c =
      (nm.less nm.material_change c ≡ false) × (nm.less c (nm.negate nm.material_change) ≡ false)

  direction_of-HasDirection : (c : F) → HasDirection (direction_of nm c) c
  unfolding direction_of
  direction_of-HasDirection c = elim (Bool-cases (nm.less nm.material_change c)) [
    | inl y ↦ rw (direction_of, y) y
    | inr z ↦ elim (Bool-cases (nm.less c (nm.negate nm.material_change))) [
      | inl y ↦ rw (direction_of, z, y) (z, y)
      | inr w ↦ rw (direction_of, z, w) (z, w)
    ]
  ]

  abbrev pub sum_left : F → List F → F
  sum_left acc [] = acc
  sum_left acc (x ∷ xs) = sum_left (nm.plus acc x) xs

  sum_of-sum_left :
      (f : Point F → F) (acc : F) (ps : List (Point F))
      → sum_of nm acc f ps ≡ sum_left acc (map f ps)
  unfolding sum_of
  sum_of-sum_left f acc [] = refl
  sum_of-sum_left f acc (p ∷ ps) = sum_of-sum_left f (nm.plus acc (f p)) ps

  -- The mean of some numbers.
  abbrev pub mean_of : List F → F
  mean_of xs = nm.over (sum_left nm.nought xs) (nm.of_count (length xs))

  length-map : (f : Point F → F) (ps : List (Point F)) → length (map f ps) ≡ length ps
  length-map f [] = refl
  length-map f (p ∷ ps) = ap suc (length-map f ps)

  pub mean-mean_of : (f : Point F → F) (ps : List (Point F)) → mean nm f ps ≡ mean_of (map f ps)
  unfolding mean
  mean-mean_of f ps =
      ap (λ s. nm.over s (nm.of_count (length ps))) (sum_of-sum_left f nm.nought ps)
      ∙ ap (λ n. nm.over (sum_left nm.nought (map f ps)) (nm.of_count n)) (sym (length-map f ps))

  -- A finding that compares the latest point with the mean of a window.
  abbrev pub IsComparison : PlannedProbe F → Finding F → List (Point F) → Point F → Type 0
  IsComparison pp f window latest =
      (f.probe ≡ pp.name)
      × (f.per ≡ pp.per)
      × (f.latest_period ≡ latest.period)
      × (f.latest ≡ latest.indicator)
      × ((b : Point F) × (bs : List (Point F)) × (window ≡ b ∷ bs) × (f.baseline_from ≡ b.period))
      × ((bs : List (Point F)) × (b : Point F) × (window ≡ bs ++ b ∷ [])
          × (f.baseline_to ≡ b.period))
      × (f.baseline ≡ mean_of (map (λ p. p.indicator) window))
      × (nm.same f.baseline nm.nought ≡ false)
      × (f.change ≡ nm.over (nm.minus f.latest f.baseline) f.baseline)
      × HasDirection f.direction f.change
      × ((f.supports ≡ true) ↔ (f.direction ≡ pp.supports))

  -- The last of some points is compared with the window before it.
  abbrev pub Compares : PlannedProbe F → List (Point F) → Finding F → Type 0
  Compares pp points f =
      (earlier : List (Point F)) × (window : List (Point F)) × (latest : Point F) × (points
        ≡ (earlier ++ window) ++ latest ∷ [])
      × IsWindow earlier window
      × IsComparison pp f window latest

  -- What a probe returned, the part of it that is settled, and how that is compared.
  abbrev pub RestsOn :
      List Coverage → Result String (List (Point F)) → PlannedProbe F → Finding F → Type 0
  RestsOn coverage ran pp f =
      (raw : List (Point F)) × (points : List (Point F)) × (ran ≡ ok raw)
      × Shows (IsSettled coverage pp) raw f.series
      × Picks (IsSettled coverage pp) raw points
      × Compares pp points f

  -- A measurement that may have been refused.
  abbrev Measures :
      {E : Type 0} → (Finding F → Type 0) → List (Point F) → Result E (Finding F) → Type 0
  Measures Q series (err why) = Unit
  Measures Q series (ok f) = (f.series ≡ series) × (f.withdrawn ≡ false) × Q f

  module _ (sprintf : String → List (Arg F) → String) where
    against-Compares :
        (pp : PlannedProbe F) (series points earlier w : List (Point F)) (latest : Point F)
        → points ≡ (earlier ++ w) ++ latest ∷ []
        → IsWindow earlier w
        → Measures (Compares pp points) series (against nm sprintf pp series latest w)
    unfolding against moved mean
    against-Compares pp series points earlier [] latest e k = tt
    against-Compares pp series points earlier (b ∷ bs) latest e k =
        elim (Bool-cases (nm.same (mean nm (λ p. p.indicator) (b ∷ bs)) nm.nought)) [
          | inl y ↦ rw y tt
          | inr z ↦ rw z (
            refl,
            refl,
            (
              earlier,
              b ∷ bs,
              latest,
              e,
              k,
              (
                refl,
                refl,
                refl,
                refl,
                (b, bs, refl, refl),
                (init b bs, last_of b bs, sym (init-append-last_of b bs), refl),
                mean-mean_of (λ p. p.indicator) (b ∷ bs),
                z,
                refl,
                direction_of-HasDirection _,
                same_direction_iff _ pp.supports,
              ),
            ),
          )
        ]

    measure_complete-Compares :
        (pp : PlannedProbe F) (series points : List (Point F))
        → Measures (Compares pp points) series (measure_complete nm sprintf pp series points)
    unfolding measure_complete last_of
    measure_complete-Compares pp series [] = tt
    measure_complete-Compares pp series (p ∷ []) = tt
    measure_complete-Compares pp series (p ∷ q ∷ qs) =
        let before = init p (q ∷ qs) in
        against-Compares pp series (p ∷ q ∷ qs) (before_window before) (in_window before)
          (last_of q qs)
          (sym (init-append-last_of p (q ∷ qs))
            ∙ ap (λ r. r ++ last_of q qs ∷ []) (sym (before_window-append before)))
          (in_window-IsWindow before)

  -- Some probe of the plan that is not skipped, and what its finding rests on.
  abbrev pub IsMeasured :
      (PlannedProbe F → Result String (List (Point F)))
      → List Coverage
      → List (PlannedProbe F)
      → Finding F
      → Type 0
  IsMeasured run_probe coverage pps f =
      Any (λ pp. (pp.skipped ≡ false) × RestsOn coverage (run_probe pp) pp f) pps

  module _ (sprintf : String → List (Arg F) → String) where
    -- What the answer of a probe rests on.
    abbrev Rests :
        List Coverage
        → Result String (List (Point F))
        → PlannedProbe F
        → Result Unanswered (Finding F)
        → Type 0
    Rests coverage ran pp (err u) = Unit
    Rests coverage ran pp (ok f) = RestsOn coverage ran pp f × (f.withdrawn ≡ false)

    relabelled-Rests :
        (coverage : List Coverage) (pp : PlannedProbe F) (raw : List (Point F))
        (m : Result String (Finding F))
        → Measures
            (Compares pp (complete_of (mark_complete raw coverage pp)))
            (mark_complete raw coverage pp)
            m
        → Rests coverage (ok raw) pp (relabelled pp m)
    unfolding relabelled
    relabelled-Rests coverage pp raw (err why) h = tt
    relabelled-Rests coverage pp raw (ok f) h = (
      (
        raw,
        complete_of (mark_complete raw coverage pp),
        refl,
        subst (Shows (IsSettled coverage pp) raw) (sym h.0) (mark_complete-Shows coverage pp raw),
        complete_of-Picks coverage pp raw,
        h.2,
      ),
      h.1,
    )

    answer-Rests :
        (coverage : List Coverage) (pp : PlannedProbe F) (ran : Result String (List (Point F)))
        → Rests coverage ran pp (answer nm sprintf coverage pp ran)
    unfolding answer measure
    answer-Rests coverage pp (err e) = tt
    answer-Rests coverage pp (ok raw) =
        let series = mark_complete raw coverage pp in
        relabelled-Rests coverage pp raw (measure nm sprintf pp series)
          (measure_complete-Compares sprintf pp series (complete_of series))

    add_answer-All :
        (Q : Finding F → Type 0) (r : Result Unanswered (Finding F)) (a : Analysis F)
        → ((f : Finding F) → r ≡ ok f → Q f)
        → All Q a.findings
        → All Q (add_answer r a).findings
    unfolding add_answer
    add_answer-All Q (err u) a k h = h
    add_answer-All Q (ok f) a k h = All-append Q a.findings (f ∷ []) h (k f refl, tt)

    analyze_from-All :
        (run_probe : PlannedProbe F → Result String (List (Point F))) (coverage : List Coverage)
        (Q : Finding F → Type 0) (a : Analysis F) (pps : List (PlannedProbe F))
        → ((f : Finding F) → IsMeasured run_probe coverage pps f → f.withdrawn ≡ false → Q f)
        → All Q a.findings
        → All Q (analyze_from nm sprintf run_probe coverage a pps).findings
    unfolding analyze_from
    analyze_from-All run_probe coverage Q a [] k h = h
    analyze_from-All run_probe coverage Q a (pp ∷ pps) k h =
        let r = answer nm sprintf coverage pp (run_probe pp) in
        analyze_from-All run_probe coverage Q (if pp.skipped then a else add_answer r a) pps
          (λ f m w. k f (inr m) w)
          (either pp.skipped (λ x. All Q x.findings) a (add_answer r a) h
            (λ z.
              add_answer-All Q r a
                (λ f e.
                  let m =
                    subst (Rests coverage (run_probe pp) pp) e
                      (answer-Rests coverage pp (run_probe pp)) in
                  k f (inl (z, m.0)) m.1)
                h))

    pub analyze-IsMeasured :
        (run_probe : PlannedProbe F → Result String (List (Point F))) (coverage : List Coverage)
        (pps : List (PlannedProbe F))
        → All
            (λ f. IsMeasured run_probe coverage pps f × (f.withdrawn ≡ false))
            (analyze nm sprintf run_probe coverage pps).findings
    unfolding analyze
    analyze-IsMeasured run_probe coverage pps =
        analyze_from-All run_probe coverage
          (λ f. IsMeasured run_probe coverage pps f × (f.withdrawn ≡ false))
          (record { findings = []; unanswered = [] }) pps (λ f m w. (m, w)) tt
