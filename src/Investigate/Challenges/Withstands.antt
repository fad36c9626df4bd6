-- ===== src/Investigate/Challenges/Withstands.antt =====
-- What a finding has to show to stand, said without the functions of the challenges.
use civic_soda_quack.Prelude.{
  ◌≡◌, ◌⊎◌, ◌↔◌, refl, ap, ◌∙◌, inl, inr, String, Bool, true, false, not, ◌&&◌, Option, none, some,
  List, [], ◌∷◌, map, str_eq, eq_iff, arith, Bool-cases, if◌then◌else◌, last?, find, filter, ◌||◌,
}
use civic_soda_quack.Prelude.Int.{ℤ, pos, leb_ℤ, eqb_ℤ}
use civic_soda_quack.Prelude.Texts.{contains}
use civic_soda_quack.Investigate.{
  Direction, down, same_direction, Numbers, Arg, Point, Finding, PlannedProbe, Coverage, Evidence,
  coverage_for, abs, concept_of, tables_of,
}
use civic_soda_quack.Investigate.Changes.{
  latest_point, base_points, worst_short, assessed_of, component_change_of, component_change,
}
use civic_soda_quack.Investigate.Measure.Settled.{
  mean_of, mean-mean_of, coverage_for-find, same_direction_iff,
}
use civic_soda_quack.Investigate.Challenges.{challenged}
use civic_soda_quack.Investigate.Challenges.Stands.{
  IsFinished, OutweighsGap, IsNumerators, Stands, challenged_iff,
}

module _ {F : Type 0} where
  -- The planned probe of a finding.
  abbrev pub probe_of : Finding F → List (PlannedProbe F) → Option (PlannedProbe F)
  probe_of f plan = find (λ pp. str_eq pp.name f.probe) plan

  abbrev pub named_concept : Option (PlannedProbe F) → String
  named_concept none = ""
  named_concept (some pp) = pp.concept

  abbrev pub named_tables : Option (PlannedProbe F) → List String
  named_tables none = []
  named_tables (some pp) = pp.tables

  concept_of-find :
      (probe : String) (plan : List (PlannedProbe F))
      → concept_of probe plan ≡ named_concept (find (λ pp. str_eq pp.name probe) plan)
  unfolding concept_of
  concept_of-find probe [] = refl
  concept_of-find probe (pp ∷ pps) = elim (Bool-cases (str_eq pp.name probe)) [
    | inl y ↦ rw y refl
    | inr z ↦ rw z (concept_of-find probe pps)
  ]

  tables_of-find :
      (probe : String) (plan : List (PlannedProbe F))
      → tables_of probe plan ≡ named_tables (find (λ pp. str_eq pp.name probe) plan)
  unfolding tables_of
  tables_of-find probe [] = refl
  tables_of-find probe (pp ∷ pps) = elim (Bool-cases (str_eq pp.name probe)) [
    | inl y ↦ rw y refl
    | inr z ↦ rw z (tables_of-find probe pps)
  ]

  -- The last point of a period, and the complete points of an interval but for that period.
  abbrev pub at_period : ℤ → List (Point F) → Option (Point F)
  at_period period ps = last? (filter (λ p. eqb_ℤ p.period period) ps)

  abbrev pub complete_between : ℤ → ℤ → ℤ → List (Point F) → List (Point F)
  complete_between period from to ps =
      filter
        (λ p.
          not (eqb_ℤ p.period period) && (leb_ℤ from p.period && leb_ℤ p.period to && p.complete))
        ps

  abbrev or_found : Option (Point F) → Option (Point F) → Option (Point F)
  or_found found none = found
  or_found found (some p) = some p

  last_or :
      (p : Point F) (found : Option (Point F)) (ps : List (Point F))
      → or_found (some p) (last? ps) ≡ or_found found (last? (p ∷ ps))
  last_or p found [] = refl
  last_or p found (q ∷ []) = refl
  last_or p found (q ∷ r ∷ rs) = last_or p found (r ∷ rs)

  latest_point-last :
      (period : ℤ) (found : Option (Point F)) (ps : List (Point F))
      → latest_point period found ps ≡ or_found found (at_period period ps)
  unfolding latest_point
  latest_point-last period found [] = refl
  latest_point-last period found (p ∷ ps) = elim (Bool-cases (eqb_ℤ p.period period)) [
    | inl y ↦ rw y (
        latest_point-last period (some p) ps
        ∙ last_or p found (filter (λ q. eqb_ℤ q.period period) ps))
    | inr z ↦ rw z (latest_point-last period found ps)
  ]

  base_points-filter :
      (period from to : ℤ) (ps : List (Point F))
      → base_points period from to ps ≡ complete_between period from to ps
  unfolding base_points
  base_points-filter period from to [] = refl
  base_points-filter period from to (p ∷ ps) = ground (arith, base_points-filter period from to ps)

module _ {F : Type 0} (nm : Numbers F) where
  abbrev pub size : F → F
  size f = if nm.less f nm.nought then nm.negate f else f

  abs-size : (f : F) → abs nm f ≡ size f
  unfolding abs
  abs-size f = refl

  -- The shares of rows that the datasets of some tables lack, and the largest of them.
  abbrev pub shares : List String → List (String × F) → List F
  shares tables ds = map (λ d. nm.minus nm.one d.1) (filter (λ d. contains tables d.0) ds)

  abbrev pub largest : F → List F → F
  largest worst [] = worst
  largest worst (s ∷ ss) = largest (if nm.less worst s then s else worst) ss

  worst_short-largest :
      (tables : List String) (worst : F) (table : String) (ds : List (String × F))
      → (worst_short nm tables worst table ds).0 ≡ largest worst (shares tables ds)
  unfolding worst_short
  worst_short-largest tables worst table [] = refl
  worst_short-largest tables worst table ((t, completeness) ∷ ds) =
      let short = nm.minus nm.one completeness in
      let more = contains tables t && nm.less worst short in
      worst_short-largest tables (if more then short else worst) (if more then t else table) ds
      ∙ elim (Bool-cases (contains tables t)) [ inl y ↦ rw y refl | inr z ↦ rw z refl ]

  -- A fall is not within what the local tables lack.
  abbrev pub Outweighs : List String → Option (Evidence F) → Finding F → Type 0
  Outweighs tables none f = Unit
  Outweighs tables (some e) f =
      (e.assessed ≡ false)
      ⊎ (f.direction ≡ down → ⊥)
      ⊎ (nm.less_eq (size f.change) (largest nm.nought (shares tables e.datasets)) ≡ false)

  -- How a component of the latest point differs from its mean.
  abbrev pub change_in : (Point F → F) → Point F → List (Point F) → F
  change_in part latest base =
      nm.over (nm.minus (part latest) (mean_of nm (map part base))) (mean_of nm (map part base))

  -- Where numerator and denominator can be compared, not only the denominator moved.
  abbrev pub NumeratorMoved : Option (Point F) → List (Point F) → Type 0
  NumeratorMoved none base = Unit
  NumeratorMoved (some latest) [] = Unit
  NumeratorMoved (some latest) (b ∷ bs) =
      (eqb_ℤ latest.period (pos 0) ≡ true)
      ⊎ (nm.same (mean_of nm (map (λ p. p.value) (b ∷ bs))) nm.nought ≡ true)
      ⊎ (nm.same (mean_of nm (map (λ p. p.denominator) (b ∷ bs))) nm.nought ≡ true)
      ⊎ (nm.less (size (change_in (λ p. p.value) latest (b ∷ bs))) nm.material_change ≡ false)
      ⊎ (nm.less nm.material_change (size (change_in (λ p. p.denominator) latest (b ∷ bs))) ≡ false)

  -- What a finding has to show: its period is covered, a fall is more than the local tables lack, and
  -- a rate did not move by its denominator alone.
  abbrev pub Withstands :
      List Coverage → Option (Evidence F) → List (PlannedProbe F) → Finding F → Type 0
  Withstands coverage evidence plan f =
      IsFinished nm (find (λ c. str_eq c.concept (named_concept (probe_of f plan))) coverage)
        f.latest_period
      × Outweighs (named_tables (probe_of f plan)) evidence f
      × ((f.per ≡ "")
          ⊎ NumeratorMoved (at_period f.latest_period f.series)
              (complete_between f.latest_period f.baseline_from f.baseline_to f.series))

  not_down_iff : (d : Direction) → (same_direction d down ≡ false) ↔ (d ≡ down → ⊥)
  not_down_iff d =
      let i = same_direction_iff d down in
      (
        (λ h k. let t = i.1 k in cc),
        (λ h. elim (Bool-cases (same_direction d down)) [ inl y ↦ absurd (h (i.0 y)) | inr z ↦ z ]),
      )

  Outweighs-iff :
      (tables : List String) (evidence : Option (Evidence F)) (f : Finding F)
      → OutweighsGap nm tables (assessed_of evidence) f.direction f.change
        ↔ Outweighs tables evidence f
  unfolding assessed_of abs
  Outweighs-iff tables none f = ((λ h. h), (λ h. h))
  Outweighs-iff tables (some e) f =
      let d = not_down_iff f.direction in
      let w = worst_short-largest tables nm.nought "" e.datasets in
      elim (Bool-cases e.assessed) [
        | inl y ↦
            rw (y, w)
              (
                (λ h. elim h [ inl a ↦ inr (inl (d.0 a)) | inr l ↦ inr (inr l) ]),
                (λ h. elim h [
                  | inl n ↦ cc
                  | inr k ↦ elim k [ inl a ↦ inl (d.1 a) | inr l ↦ inr l ]
                ]),
              )
        | inr z ↦ rw z ((λ h. inl refl), (λ h. tt))
      ]

  IsNumerators-if :
      (p q r : Bool) (num den : F)
      → IsNumerators nm (if p || q || r then none else some (num, den)) ↔ (
          (p ≡ true)
          ⊎ (q ≡ true)
          ⊎ (r ≡ true)
          ⊎ (nm.less (size num) nm.material_change ≡ false)
          ⊎ (nm.less nm.material_change (size den) ≡ false))
  unfolding abs
  IsNumerators-if true q r num den = ((λ h. inl refl), (λ h. tt))
  IsNumerators-if false true r num den = ((λ h. inr (inl refl)), (λ h. tt))
  IsNumerators-if false false true num den = ((λ h. inr (inr (inl refl))), (λ h. tt))
  IsNumerators-if false false false num den = (
    (λ h. inr (inr (inr h))),
    (λ h. elim h [
      | inl a ↦ absurd cc
      | inr h ↦ elim h [ inl a ↦ absurd cc | inr h ↦ elim h [ inl a ↦ absurd cc | inr k ↦ k ] ]
    ]),
  )

  NumeratorMoved-iff :
      (latest : Option (Point F)) (base : List (Point F))
      → IsNumerators nm (component_change_of nm latest base) ↔ NumeratorMoved latest base
  unfolding component_change_of
  NumeratorMoved-iff none base = ((λ h. h), (λ h. h))
  NumeratorMoved-iff (some latest) [] = ((λ h. h), (λ h. h))
  NumeratorMoved-iff (some latest) (b ∷ bs) =
      rw (mean-mean_of nm (λ p. p.value) (b ∷ bs), mean-mean_of nm (λ p. p.denominator) (b ∷ bs))
        (IsNumerators-if (eqb_ℤ latest.period (pos 0))
          (nm.same (mean_of nm (map (λ p. p.value) (b ∷ bs))) nm.nought)
          (nm.same (mean_of nm (map (λ p. p.denominator) (b ∷ bs))) nm.nought)
          (change_in (λ p. p.value) latest (b ∷ bs))
          (change_in (λ p. p.denominator) latest (b ∷ bs)))

  component_iff :
      (f : Finding F)
      → IsNumerators nm (component_change nm f)
        ↔ NumeratorMoved
            (at_period f.latest_period f.series)
            (complete_between f.latest_period f.baseline_from f.baseline_to f.series)
  unfolding component_change
  component_iff f =
      rw
        (
          latest_point-last f.latest_period none f.series,
          base_points-filter f.latest_period f.baseline_from f.baseline_to f.series,
          found_none (at_period f.latest_period f.series),
        )
        (NumeratorMoved-iff (at_period f.latest_period f.series)
          (complete_between f.latest_period f.baseline_from f.baseline_to f.series))
    where
      found_none : (o : Option (Point F)) → or_found none o ≡ o
      found_none none = refl
      found_none (some p) = refl

  Stands-iff :
      (coverage : List Coverage) (evidence : Option (Evidence F)) (plan : List (PlannedProbe F))
      (f : Finding F)
      → Stands nm coverage evidence plan f ↔ Withstands coverage evidence plan f
  Stands-iff coverage evidence plan f =
      let c : coverage_for (concept_of f.probe plan) coverage
          ≡ find (λ c. str_eq c.concept (named_concept (probe_of f plan))) coverage =
        coverage_for-find (concept_of f.probe plan) coverage
        ∙ ap (λ n. find (λ c. str_eq c.concept n) coverage) (concept_of-find f.probe plan) in
      let t = tables_of-find f.probe plan in
      let o = Outweighs-iff (named_tables (probe_of f plan)) evidence f in
      let n = component_iff f in
      let p = eq_iff f.per "" in
      rw (c, t)
        (
          (λ h. (h.0, o.0 h.1, elim h.2 [ inl e ↦ inl (p.0 e) | inr k ↦ inr (n.0 k) ])),
          (λ h. (h.0, o.1 h.1, elim h.2 [ inl e ↦ inl (p.1 e) | inr k ↦ inr (n.1 k) ])),
        )

  pub challenged-Withstands :
      (sprintf : String → List (Arg F) → String) (coverage : List Coverage)
      (evidence : Option (Evidence F)) (plan : List (PlannedProbe F)) (f : Finding F)
      → f.withdrawn ≡ false
      → ((challenged nm sprintf coverage evidence plan f).withdrawn ≡ false)
        ↔ Withstands coverage evidence plan (challenged nm sprintf coverage evidence plan f)
  challenged-Withstands sprintf coverage evidence plan f h =
      let g = challenged nm sprintf coverage evidence plan f in
      let c = challenged_iff nm sprintf coverage evidence plan f h in
      let s = Stands-iff coverage evidence plan g in ((λ e. s.0 (c.0 e)), (λ w. c.1 (s.1 w)))
