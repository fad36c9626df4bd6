-- ===== src/Investigate/Plans/Runs.antt =====
-- Which indicators of a plan will run.
use mathlib.Core.Path.{subst}
use civic_soda_quack.Prelude.Maps.{get}
use civic_soda_quack.Modes.Concepts.Refs.{IsCut, Refers, concept_refs-All, concept_refs-Any}
use civic_soda_quack.Prelude.{
  ℕ, sym, ◌∙◌, All, Any, Bool-cases, Option-cases, if◌then◌else◌, suc, ◌≡◌, ◌⊎◌, refl, inl, inr,
  String, Bool, true, false, Option, none, some, List, [], ◌∷◌, Result, ok, err, length,
}
use civic_soda_quack.Modes.{BoundDataset, Binding, Mode, Strings}
use civic_soda_quack.Modes.Concepts.{concept_refs, comparable, expand_concepts_for}
use civic_soda_quack.Investigate.{Probe, Investigation, PlannedProbe, Plan}
use civic_soda_quack.Investigate.Plans.{
  skip, absent, bound_of, tables_in, not_held, query_of, run_with, plan_held, plan_for, plan_probe,
  plan_probes, count_runnable, make_plan,
}

-- A bound concept whose table is there, if tables are asked for, and one whose table is not.
abbrev pub IsHeld : Binding → Option (String → Bool) → String → Type 0
IsHeld b have name =
    (h : String → Bool)
    → have ≡ some h
    → (bd : BoundDataset) → get name b.concepts ≡ some bd
    → h bd.table ≡ true

abbrev pub IsLacking : Binding → Option (String → Bool) → String → Type 0
IsLacking b have name =
    (h : String → Bool) × (bd : BoundDataset) × (have ≡ some h)
    × (get name b.concepts ≡ some bd)
    × (h bd.table ≡ false)

-- No table is missing, or some is, of the concepts given by name.
abbrev Sorted : Binding → Option (String → Bool) → List String → List String → Type 0
Sorted b have names tables =
    ((tables ≡ []) × All (IsHeld b have) names)
    ⊎ ((t : String) × (ts : List String) × (tables ≡ t ∷ ts) × Any (IsLacking b have) names)

unasked-IsHeld : (b : Binding) (names : List String) → All (IsHeld b none) names
unasked-IsHeld b [] = tt
unasked-IsHeld b (name ∷ names) = ((λ h e bd k. absurd (no_test h e)), unasked-IsHeld b names)
  where
    no_test : (h : String → Bool) → none ≡ some h → ⊥
    no_test h e = cc

module _ (b : Binding) (have : String → Bool) where
  same_test : (h : String → Bool) → some have ≡ some h → have ≡ h
  same_test h e = cc

  also_held :
      (name : String) (names tables : List String)
      → IsHeld b (some have) name
      → Sorted b (some have) names tables
      → Sorted b (some have) (name ∷ names) tables
  also_held name names tables h (inl d) = inl (d.0, (h, d.1))
  also_held name names tables h (inr (t, ts, e, a)) = inr (t, ts, e, inr a)

  abbrev absent_of : List String → List String
  absent_of names = absent have (tables_in (bound_of b names))

  absent-unbound :
      (name : String) (names : List String)
      → get name b.concepts ≡ none
      → absent_of (name ∷ names) ≡ absent_of names
  unfolding bound_of
  absent-unbound name names e = rw (bound_of, e) refl

  absent-bound :
      (name : String) (names : List String) (bd : BoundDataset)
      → get name b.concepts ≡ some bd
      → absent_of (name ∷ names)
        ≡ (if have bd.table then absent_of names else bd.table ∷ absent_of names)
  unfolding bound_of absent
  absent-bound name names bd e = rw (bound_of, e) refl

  absent-held :
      (name : String) (names : List String) (bd : BoundDataset)
      → get name b.concepts ≡ some bd
      → have bd.table ≡ true
      → absent_of (name ∷ names) ≡ absent_of names
  absent-held name names bd e y = absent-bound name names bd e ∙ rw y refl

  absent-lacking :
      (name : String) (names : List String) (bd : BoundDataset)
      → get name b.concepts ≡ some bd
      → have bd.table ≡ false
      → absent_of (name ∷ names) ≡ bd.table ∷ absent_of names
  absent-lacking name names bd e z = absent-bound name names bd e ∙ rw z refl

  bound-IsHeld :
      (name : String) (bd : BoundDataset)
      → get name b.concepts ≡ some bd
      → have bd.table ≡ true
      → IsHeld b (some have) name
  bound-IsHeld name bd e y h k d f =
      let x : bd ≡ d = cc in
      subst (λ g. g d.table ≡ true) (same_test h k) (subst (λ z. have z.table ≡ true) x y)

  unbound-IsHeld : (name : String) → get name b.concepts ≡ none → IsHeld b (some have) name
  unbound-IsHeld name e h k d f = absurd cc

  absent-Sorted : (names : List String) → Sorted b (some have) names (absent_of names)
  unfolding absent bound_of
  absent-Sorted [] = inl (refl, tt)
  absent-Sorted (name ∷ names) = elim (Option-cases (get name b.concepts)) [
    | inl e ↦
        subst (Sorted b (some have) (name ∷ names)) (sym (absent-unbound name names e))
          (also_held name names (absent_of names) (unbound-IsHeld name e) (absent-Sorted names))
    | inr (bd, e) ↦ elim (Bool-cases (have bd.table)) [
      | inl y ↦
          subst (Sorted b (some have) (name ∷ names)) (sym (absent-held name names bd e y)) (
            also_held name names (absent_of names) (bound-IsHeld name bd e y) (absent-Sorted names))
      | inr z ↦
          inr (
            bd.table,
            absent_of names,
            absent-lacking name names bd e z,
            inl (have, bd, refl, e, z),
          )
    ]
  ]

not_held-Sorted :
    (b : Binding) (have : Option (String → Bool)) (names : List String)
    → Sorted b have names (not_held have (tables_in (bound_of b names)))
not_held-Sorted b none names = inl (refl, unasked-IsHeld b names)
not_held-Sorted b (some have) names = absent-Sorted b have names

module _ {F : Type 0} where
  -- So many probes are not skipped.
  abbrev pub Counts : ℕ → List (PlannedProbe F) → Type 0
  Counts n [] = n ≡ 0
  Counts n (pp ∷ pps) =
      ((pp.skipped ≡ true) × Counts n pps)
      ⊎ ((pp.skipped ≡ false) × ((k : ℕ) × (n ≡ suc k) × Counts k pps))

  count_runnable-Counts : (pps : List (PlannedProbe F)) → Counts (count_runnable pps) pps
  unfolding count_runnable
  count_runnable-Counts [] = refl
  count_runnable-Counts (pp ∷ pps) = elim (Bool-cases pp.skipped) [
    | inl y ↦ rw (count_runnable, y) (inl (refl, count_runnable-Counts pps))
    | inr z ↦
        rw (count_runnable, z) (inr (refl, (count_runnable pps, refl, count_runnable-Counts pps)))
  ]

module _ {F : Type 0} (st : Strings) (equal_fold : String → String → Bool) where
  -- The tables that a probe reads and that are not there.
  abbrev lacks : Binding → Option (String → Bool) → Probe F → List String
  lacks b have probe = not_held have (tables_in (bound_of b (concept_refs st probe.sql)))

  abbrev pub HoldsAll : Binding → Option (String → Bool) → Probe F → Type 0
  HoldsAll b have probe = (name : String) → Refers st probe.sql name → IsHeld b have name

  -- What a probe on the plan says of its portal.
  abbrev pub IsDecided :
      Mode → String → Binding → Option (String → Bool) → Probe F → PlannedProbe F → Type 0
  IsDecided m alias b have probe pp =
      ((pp.skipped ≡ false)
        × (comparable st m (query_of probe) b ≡ none)
        × HoldsAll b have probe
        × (expand_concepts_for st m probe.sql alias b ≡ ok pp.sql))
      ⊎ ((pp.skipped ≡ true)
          × (pp.fixable ≡ true)
          × (comparable st m (query_of probe) b ≡ none)
          × ((name : String) × Refers st probe.sql name × IsLacking b have name))
      ⊎ ((pp.skipped ≡ true)
          × (pp.fixable ≡ false)
          × (((why : String) × (comparable st m (query_of probe) b ≡ some why))
              ⊎ ((comparable st m (query_of probe) b ≡ none)
                  × HoldsAll b have probe
                  × ((e : String) × (expand_concepts_for st m probe.sql alias b ≡ err e)))))

  run_with-IsDecided :
      (m : Mode) (alias : String) (b : Binding) (have : Option (String → Bool)) (probe : Probe F)
      (expanded : Result String String)
      → expand_concepts_for st m probe.sql alias b ≡ expanded
      → comparable st m (query_of probe) b ≡ none
      → HoldsAll b have probe
      → IsDecided m alias b have probe (run_with st equal_fold m alias b probe expanded)
  unfolding run_with skip
  run_with-IsDecided m alias b have probe (err e) x c l = inr (inr (refl, refl, inr (c, l, (e, x))))
  run_with-IsDecided m alias b have probe (ok sql) x c l = inl (refl, c, l, x)

  module _ (cuts : IsCut st) where
    plan_held-IsDecided :
        (m : Mode) (alias : String) (b : Binding) (have : Option (String → Bool)) (probe : Probe F)
        (tables : List String)
        → Sorted b have (concept_refs st probe.sql) tables
        → comparable st m (query_of probe) b ≡ none
        → IsDecided m alias b have probe (plan_held st equal_fold m alias b probe tables)
    unfolding plan_held skip
    plan_held-IsDecided m alias b have probe [] (inl d) c =
        run_with-IsDecided m alias b have probe (expand_concepts_for st m probe.sql alias b) refl c
          ((concept_refs-All st cuts (IsHeld b have) probe.sql).0 d.1)
    plan_held-IsDecided m alias b have probe [] (inr (t, ts, e, a)) c = absurd cc
    plan_held-IsDecided m alias b have probe (t ∷ ts) (inl d) c = absurd (let e = d.0 in cc)
    plan_held-IsDecided m alias b have probe (t ∷ ts) (inr d) c =
        inr (inl (refl, refl, c, concept_refs-Any st cuts (IsLacking b have) probe.sql d.3))

    plan_for-IsDecided :
        (m : Mode) (alias : String) (b : Binding) (have : Option (String → Bool)) (probe : Probe F)
        (o : Option String)
        → comparable st m (query_of probe) b ≡ o
        → IsDecided m alias b have probe (plan_for st equal_fold m alias b have probe o)
    unfolding plan_for skip
    plan_for-IsDecided m alias b have probe none e =
        plan_held-IsDecided m alias b have probe (lacks b have probe)
          (not_held-Sorted b have (concept_refs st probe.sql)) e
    plan_for-IsDecided m alias b have probe (some why) e = inr (inr (refl, refl, inl (why, e)))

  run_with-name :
      (m : Mode) (alias : String) (b : Binding) (probe : Probe F) (r : Result String String)
      → (run_with st equal_fold m alias b probe r).name ≡ probe.name
  unfolding run_with skip
  run_with-name m alias b probe (err e) = refl
  run_with-name m alias b probe (ok sql) = refl

  plan_held-name :
      (m : Mode) (alias : String) (b : Binding) (probe : Probe F) (tables : List String)
      → (plan_held st equal_fold m alias b probe tables).name ≡ probe.name
  unfolding plan_held skip
  plan_held-name m alias b probe [] =
      run_with-name m alias b probe (expand_concepts_for st m probe.sql alias b)
  plan_held-name m alias b probe (t ∷ ts) = refl

  plan_for-name :
      (m : Mode) (alias : String) (b : Binding) (have : Option (String → Bool)) (probe : Probe F)
      (o : Option String)
      → (plan_for st equal_fold m alias b have probe o).name ≡ probe.name
  unfolding plan_for skip
  plan_for-name m alias b have probe none = plan_held-name m alias b probe (lacks b have probe)
  plan_for-name m alias b have probe (some why) = refl

  -- One planned probe for every probe, in order.
  abbrev pub AllDecided :
      Mode
      → String
      → Binding
      → Option (String → Bool)
      → List (Probe F)
      → List (PlannedProbe F)
      → Type 0
  AllDecided m alias b have [] [] = Unit
  AllDecided m alias b have (p ∷ ps) (pp ∷ pps) =
      (pp.name ≡ p.name) × IsDecided m alias b have p pp × AllDecided m alias b have ps pps
  AllDecided m alias b have [] (pp ∷ pps) = ⊥
  AllDecided m alias b have (p ∷ ps) [] = ⊥

  plan_probes-AllDecided :
      (cuts : IsCut st) (m : Mode) (alias : String) (b : Binding) (have : Option (String → Bool))
      (ps : List (Probe F))
      → AllDecided m alias b have ps (plan_probes st equal_fold m alias b have ps)
  unfolding plan_probes plan_probe
  plan_probes-AllDecided cuts m alias b have [] = tt
  plan_probes-AllDecided cuts m alias b have (p ∷ ps) = (
    plan_for-name m alias b have p (comparable st m (query_of p) b),
    plan_for-IsDecided cuts m alias b have p (comparable st m (query_of p) b) refl,
    plan_probes-AllDecided cuts m alias b have ps,
  )

  -- What a plan promises, if there is one.
  abbrev pub IsPlan :
      Investigation F
      → Mode
      → Binding
      → String
      → Option (String → Bool)
      → Result String (Plan F)
      → Type 0
  IsPlan inv m b alias have (err e) = ⊥
  IsPlan inv m b alias have (ok plan) =
      AllDecided m alias b have inv.probes plan.probes
      × (plan.total ≡ length inv.probes)
      × Counts plan.runnable plan.probes

  -- Where a text that is cut out of another one leaves the rest of it, a plan for a mode and a
  -- portal has the probes of the investigation in their order. A probe is run, with its expanded
  -- statement, exactly if the portal can answer it, the table of every bound concept that its
  -- statement refers to is there, or no tables are asked for, and the statement expands. It is
  -- skipped as fixable exactly if the portal can answer it and the table of some bound concept
  -- that it refers to is not there, and for good in every other case. The number of runnable ones
  -- is that of the probes that are not skipped.
  pub make_plan-IsPlan :
      (cuts : IsCut st) (inv : Investigation F) (m : Mode) (b : Binding) (alias : String)
      (have : Option (String → Bool))
      → IsPlan inv m b alias have (make_plan st equal_fold inv (some m) (some b) alias have)
  unfolding make_plan
  make_plan-IsPlan cuts inv m b alias have = (
    plan_probes-AllDecided cuts m alias b have inv.probes,
    refl,
    count_runnable-Counts (plan_probes st equal_fold m alias b have inv.probes),
  )
