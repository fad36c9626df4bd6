-- ===== src/Investigate/Run/Counted.antt =====
-- What the findings of a report rest on.
use civic_soda_quack.Prelude.{
  ◌≡◌, ◌↔◌, inl, inr, String, false, not, ◌&&◌, Option, none, some, List, [], ◌∷◌, map, Result, ok,
  err, All, any, str_eq, Bool-cases,
}
use civic_soda_quack.Prelude.Texts.{NoRepeats}
use civic_soda_quack.Modes.{Binding, Mode, Strings}
use civic_soda_quack.Investigate.{
  Point, Numbers, Arg, Investigation, PlannedProbe, Plan, Coverage, Evidence, Validation, Finding,
  ChallengeResult,
}
use civic_soda_quack.Investigate.Measure.{analyze}
use civic_soda_quack.Investigate.Measure.Settled.{IsMeasured, analyze-IsMeasured}
use civic_soda_quack.Investigate.Challenges.{
  challenges_of, first_withdrawer, taken_down, challenged, challenge,
}
use civic_soda_quack.Investigate.Challenges.Withstands.{Withstands, challenged-Withstands}
use civic_soda_quack.Investigate.Explain.{Report, finalize, add_caveats, caveats}
use civic_soda_quack.Investigate.Explain.Counts.{judged, speaks_for, speaks_against, verdict-Judges}
use civic_soda_quack.Investigate.Explain.Caveats.{add_caveats-NoRepeats, caveats-NoRepeats}
use civic_soda_quack.Investigate.Plans.{make_plan}
use civic_soda_quack.Investigate.Plans.Needs.{Readiness}
use civic_soda_quack.Investigate.Discover.{Discovery}
use civic_soda_quack.Investigate.Run.{
  Asks, RunError, explained, concluded, with_plan, investigate, routed, resolve, run, same_city,
}

module _ {F : Type 0} (nm : Numbers F) where
  -- A finding of a report: measured as the plan says, and standing exactly if it withstands.
  abbrev pub IsGrounded :
      (PlannedProbe F → Result String (List (Point F)))
      → List Coverage
      → Option (Evidence F)
      → List (PlannedProbe F)
      → Finding F
      → Type 0
  IsGrounded run_probe coverage evidence pps f =
      IsMeasured nm run_probe coverage pps f
      × ((f.withdrawn ≡ false) ↔ Withstands nm coverage evidence pps f)

  taken_down-IsMeasured :
      (run_probe : PlannedProbe F → Result String (List (Point F))) (coverage : List Coverage)
      (pps : List (PlannedProbe F)) (o : Option ChallengeResult) (f : Finding F)
      → IsMeasured nm run_probe coverage pps f
      → IsMeasured nm run_probe coverage pps (taken_down o f)
  unfolding taken_down
  taken_down-IsMeasured run_probe coverage pps none f h = h
  taken_down-IsMeasured run_probe coverage pps (some c) f h = h

  module _ (sprintf : String → List (Arg F) → String) where
    challenged-IsMeasured :
        (run_probe : PlannedProbe F → Result String (List (Point F))) (coverage : List Coverage)
        (evidence : Option (Evidence F)) (pps : List (PlannedProbe F)) (f : Finding F)
        → IsMeasured nm run_probe coverage pps f
        → IsMeasured nm run_probe coverage pps (challenged nm sprintf coverage evidence pps f)
    unfolding challenged
    challenged-IsMeasured run_probe coverage evidence pps f h =
        let results = challenges_of nm sprintf coverage evidence pps f in
        taken_down-IsMeasured run_probe coverage pps (first_withdrawer results)
          (record f { challenges = results }) h

    map-IsGrounded :
        (run_probe : PlannedProbe F → Result String (List (Point F))) (coverage : List Coverage)
        (evidence : Option (Evidence F)) (pps : List (PlannedProbe F)) (fs : List (Finding F))
        → All (λ f. IsMeasured nm run_probe coverage pps f × (f.withdrawn ≡ false)) fs
        → All
            (IsGrounded run_probe coverage evidence pps)
            (map (challenged nm sprintf coverage evidence pps) fs)
    map-IsGrounded run_probe coverage evidence pps [] h = tt
    map-IsGrounded run_probe coverage evidence pps (f ∷ fs) h = (
      (
        challenged-IsMeasured run_probe coverage evidence pps f h.0.0,
        challenged-Withstands nm sprintf coverage evidence pps f h.0.1,
      ),
      map-IsGrounded run_probe coverage evidence pps fs h.1,
    )

  -- A report whose findings are grounded, whose verdict is drawn from those that stand, and whose
  -- limits do not repeat.
  abbrev pub IsSound : (PlannedProbe F → Result String (List (Point F))) → Report F → Type 0
  IsSound run_probe r =
      All (IsGrounded run_probe r.validation.coverage r.validation.evidence r.plan.probes)
        r.analysis.findings
      × (r.verdict
          ≡ judged (any speaks_for r.analysis.findings) (any speaks_against r.analysis.findings))
      × NoRepeats r.caveats

  abbrev pub Concludes :
      (PlannedProbe F → Result String (List (Point F)))
      → Result (RunError F) (Readiness × Report F)
      → Type 0
  Concludes run_probe (err e) = Unit
  Concludes run_probe (ok (ready, r)) = IsSound run_probe r

  module _ (st : Strings) (sprintf : String → List (Arg F) → String) (asks : Asks F) where
    explained-IsSound :
        (inv : Investigation F) (m : Mode) (b : Binding) (v : Validation F) (plan : Plan F)
        → IsSound asks.run_probe (explained nm st sprintf asks inv m b v plan)
    unfolding finalize challenge
    explained-IsSound inv m b v plan =
        let a =
          challenge nm sprintf v.coverage v.evidence plan.probes
            (analyze nm sprintf asks.run_probe v.coverage plan.probes) in
        let own = caveats-NoRepeats st.trim sprintf v a plan in
        (
          map-IsGrounded sprintf asks.run_probe v.coverage v.evidence plan.probes
              (analyze nm sprintf asks.run_probe v.coverage plan.probes).findings
              (analyze-IsMeasured nm sprintf asks.run_probe v.coverage plan.probes),
          (verdict-Judges a.findings []).0,
          add_caveats-NoRepeats st.trim
              (add_caveats st.trim (caveats st.trim sprintf v a plan) inv.caveats) b.notes
              (add_caveats-NoRepeats st.trim (caveats st.trim sprintf v a plan) inv.caveats own),
        )

    with_plan-Concludes :
        (inv : Investigation F) (alias : String) (m : Option Mode) (b : Binding)
        (p : Result String (Plan F))
        → Concludes asks.run_probe (with_plan nm st sprintf asks inv alias m b p)
    unfolding concluded
    with_plan-Concludes inv alias m b (err e) = tt
    with_plan-Concludes inv alias none b (ok plan) = tt
    with_plan-Concludes inv alias (some m) b (ok plan) = explained-IsSound inv m b _ plan

    investigate-Concludes :
        (d : Discovery F) (alias : String) (b : Option Binding)
        → Concludes asks.run_probe (investigate nm st sprintf asks d alias b)
    unfolding investigate
    investigate-Concludes d alias none = tt
    investigate-Concludes d alias (some b) =
        elim (Bool-cases (not (str_eq d.place "") && not (same_city st d.place b.city))) [
          | inl y ↦ rw y tt
          | inr z ↦ rw z (
              with_plan-Concludes d.investigation alias (asks.find_mode d.investigation.mode) b (
                make_plan st asks.equal_fold d.investigation (asks.find_mode d.investigation.mode)
                  (some b) alias asks.have))
        ]

    routed-Concludes :
        (r : Result _ (Discovery F)) (alias : String) (b : Option Binding)
        → Concludes asks.run_probe (routed nm st sprintf asks r alias b)
    routed-Concludes (err e) alias b = tt
    routed-Concludes (ok d) alias b = investigate-Concludes d alias b

    -- Whatever the probes return and whichever way the investigation was chosen, a report that a
    -- run gives is sound. Each of its findings belongs to a probe of the plan that was not skipped
    -- and shows what that probe returned, with the points marked that lie in the known coverage of
    -- the probe's concept less its settling time. Of these points it compares the last with the
    -- mean of the three before it, or of all where there are fewer: its change is that of the last
    -- point's indicator relative to the mean, which is not 0, its direction is that of a change of
    -- more than the material one, and it supports the claim exactly if that is the direction asked
    -- for. It is not withdrawn exactly if its latest period is covered, a fall is more than the
    -- largest share of rows that the probe's tables lack, and the change of a rate, where its
    -- components can be compared, is not that of a denominator that moved while the numerator
    -- stood still. The verdict follows from whether some finding that stands and moved speaks for
    -- the claim and whether some speaks against it. No limit is listed twice.
    pub run-Concludes :
        (registry : List (Investigation F)) (cities : List String) (question : String)
        (given : Option (Discovery F)) (named alias : String) (b : Option Binding)
        → Concludes asks.run_probe
            (run nm st sprintf asks registry cities question given named alias b)
    unfolding run
    run-Concludes registry cities question given named alias b =
        routed-Concludes (resolve nm st sprintf asks registry cities question given named) alias b
