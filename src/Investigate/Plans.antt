-- ===== src/Investigate/Plans.antt =====
-- The plan of an investigation: internal/investigate/plan.go. A test for local
-- tables that is not given is none.
pub mod Needs
pub mod Runs
use civic_soda_quack.Prelude.{
  ℕ, zero, suc, ◌+◌, String, str_append, Bool, true, false, ◌&&◌, ◌||◌, not, Option, none, some,
  List, [], ◌∷◌, ◌++◌, map, Result, ok, err, str_eq, if◌then◌else◌, ◌==◌, length,
}
use civic_soda_quack.Prelude.Maps.{get}
use civic_soda_quack.Prelude.Texts.{contains, join}
use civic_soda_quack.Modes.{Query, BoundDataset, Binding, Mode, Strings}
use civic_soda_quack.Modes.Concepts.{concept_refs, comparable, expand_concepts_for}
use civic_soda_quack.Confidence.Targets.{EvidenceTarget, targets_for}
use civic_soda_quack.Investigate.{Direction, Probe, Investigation, PlannedProbe, Plan}

-- The key of a target in `Targets`.
pub target_key : EvidenceTarget → String
unfolding join
target_key t =
    str_append t.portal (str_append "." (str_append t.table (str_append "|" (join "," t.columns))))

abbrev pub held : List EvidenceTarget → EvidenceTarget → Bool
held [] t = false
held (s ∷ ss) t = str_eq (target_key s) (target_key t) || held ss t

-- Targets that are not there yet, in their order.
pub add_targets : List EvidenceTarget → List EvidenceTarget → List EvidenceTarget
unfolding target_key
add_targets out [] = out
add_targets out (t ∷ ts) = add_targets (if held out t then out else out ++ t ∷ []) ts

abbrev pub tables_in : List BoundDataset → List String
tables_in bds = map (λ bd. bd.table) bds

-- The bound datasets of some names.
pub bound_of : Binding → List String → List BoundDataset
bound_of b [] = []
bound_of b (name ∷ names) = elim (get name b.concepts) [
  | none ↦ bound_of b names
  | some bd ↦ bd ∷ bound_of b names
]

pub absent : (String → Bool) → List String → List String
absent have [] = []
absent have (t ∷ ts) = let rest = absent have ts in if have t then rest else t ∷ rest

abbrev pub not_held : Option (String → Bool) → List String → List String
not_held none tables = []
not_held (some have) tables = absent have tables

module _ {F : Type 0} where
  -- `Targets`
  pub targets_from : List EvidenceTarget → List (PlannedProbe F) → List EvidenceTarget
  unfolding add_targets
  targets_from out [] = out
  targets_from out (pp ∷ pps) =
      targets_from (if pp.skipped then out else add_targets out pp.targets) pps

  abbrev pub query_of : Probe F → Query
  query_of probe = record { name = probe.name; desc = probe.asks; sql = probe.sql }

  pub skip : Probe F → String → Bool → PlannedProbe F
  skip probe reason fixable = record {
    name = probe.name;
    asks = probe.asks;
    supports = probe.supports;
    unit = probe.unit;
    per = probe.per;
    sql = "";
    tables = [];
    concept = probe.concept;
    period_column = probe.period_column;
    skipped = true;
    reason = reason;
    fixable = fixable;
    probe = probe;
    targets = [];
  }

  -- The columns that `profileTargets` keeps.
  pub kept_columns : Probe F → List String → List String
  kept_columns probe [] = []
  kept_columns probe (col ∷ cols) =
      let rest = kept_columns probe cols in
      if str_eq col probe.period_column || not (contains probe.measures_absence_of col)
      then col ∷ rest
      else rest

  pub count_runnable : List (PlannedProbe F) → ℕ
  count_runnable [] = 0
  count_runnable (pp ∷ pps) = let rest = count_runnable pps in if pp.skipped then rest else suc rest

  module _ (st : Strings) (equal_fold : String → String → Bool) where
    -- `profileTargets`
    pub profile_targets : Mode → String → Binding → Probe F → List EvidenceTarget
    unfolding kept_columns
    profile_targets m alias b probe = elim probe.measures_absence_of [
      | [] ↦ targets_for st equal_fold m (query_of probe) alias b
      | c ∷ cs ↦
          map {A = EvidenceTarget} {B = EvidenceTarget}
            (λ t. record t { columns = kept_columns probe t.columns })
            (targets_for st equal_fold m (query_of probe) alias b)
    ]

    -- `tablesFor`
    pub tables_for : Probe F → Binding → List String
    unfolding bound_of
    tables_for probe b = st.sort (tables_in (bound_of b (concept_refs st probe.sql)))

    -- A probe that will run, of the expanded statement.
    pub run_with : Mode → String → Binding → Probe F → Result String String → PlannedProbe F
    unfolding skip profile_targets tables_for
    run_with m alias b probe (err e) = skip probe e false
    run_with m alias b probe (ok sql) = record (skip probe "" false) {
      skipped = false;
      sql = sql;
      tables = tables_for probe b;
      targets = profile_targets m alias b probe;
    }

    pub plan_held : Mode → String → Binding → Probe F → List String → PlannedProbe F
    unfolding run_with
    plan_held m alias b probe [] =
        run_with m alias b probe (expand_concepts_for st m probe.sql alias b)
    plan_held m alias b probe (t ∷ ts) =
        skip probe (str_append "not synced yet: " (join ", " (st.sort (t ∷ ts)))) true

    -- With a reason why the portal cannot answer, or without one.
    pub plan_for :
        Mode → String → Binding → Option (String → Bool) → Probe F → Option String → PlannedProbe F
    unfolding plan_held bound_of absent
    plan_for m alias b have probe (some why) =
        skip probe (str_append b.portal (str_append " " why)) false
    plan_for m alias b have probe none =
        plan_held m alias b probe
          (not_held have (tables_in (bound_of b (concept_refs st probe.sql))))

    -- The body of the loop of `MakePlan`.
    pub plan_probe : Mode → String → Binding → Option (String → Bool) → Probe F → PlannedProbe F
    unfolding plan_for
    plan_probe m alias b have probe =
        plan_for m alias b have probe (comparable st m (query_of probe) b)

    pub plan_probes :
        Mode → String → Binding → Option (String → Bool) → List (Probe F) → List (PlannedProbe F)
    unfolding plan_probe
    plan_probes m alias b have probes = map (plan_probe m alias b have) probes

    -- `MakePlan`, of the mode that modes.Lookup finds; no binding for a nil one.
    pub make_plan :
        Investigation F
        → Option Mode
        → Option Binding
        → String
        → Option (String → Bool)
        → Result String (Plan F)
    unfolding plan_probes count_runnable
    make_plan inv none b alias have = err (
        str_append "investigation "
          (str_append (st.quote inv.name) (str_append " needs mode " (st.quote inv.mode))))
    make_plan inv (some m) none alias have = err (
        str_append "investigation "
          (str_append (st.quote inv.name) " has no binding for this portal"))
    make_plan inv (some m) (some b) alias have = ok (record {
      investigation = inv.name;
      claim = inv.claim;
      mode = m.name;
      city = b.city;
      portal = b.portal;
      probes = plan_probes m alias b have inv.probes;
      runnable = count_runnable (plan_probes m alias b have inv.probes);
      total = length inv.probes;
    })
