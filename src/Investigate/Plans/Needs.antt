-- ===== src/Investigate/Plans/Needs.antt =====
-- What a plan still needs: Assess of internal/investigate/plan.go.
use civic_soda_quack.Prelude.{
  String, str_append, Bool, true, false, not, Option, none, some, List, [], ◌∷◌, ◌++◌, map, str_eq,
  if◌then◌else◌, ◌==◌,
}
use civic_soda_quack.Prelude.Texts.{contains}
use civic_soda_quack.Modes.{BoundDataset, Binding, Strings}
use civic_soda_quack.Modes.Concepts.{concept_refs}
use civic_soda_quack.Investigate.{Probe, Investigation, PlannedProbe, Plan}
use civic_soda_quack.Investigate.Plans.{bound_of, tables_in}

-- Names put into a set that starts empty, which is listed by `sort`.
pub add_name : String → List String → List String
add_name s out = if contains out s then out else out ++ s ∷ []

pub add_names : List String → List String → List String
unfolding add_name
add_names out [] = out
add_names out (s ∷ ss) = add_names (add_name s out) ss

abbrev pub ids_of : List BoundDataset → List String
ids_of bds = map (λ bd. bd.id) bds

pub record Readiness : Type 0 where
  pub ready : Bool
  pub missing : List String
  pub blocked : List String
  pub fix_command : String
  pub dataset_ids : List String

-- What the loop of `Assess` gathers.
pub record Needs : Type 0 where
  pub ready : Bool
  pub blocked : List String
  pub tables : List String
  pub ids : List String

module _ {F : Type 0} where
  -- `Probe` of an investigation, by name.
  pub find_probe : String → List (Probe F) → Option (Probe F)
  find_probe name [] = none
  find_probe name (p ∷ ps) = if str_eq p.name name then some p else find_probe name ps

  module _ (st : Strings) where
    pub need_of : Binding → Option (Probe F) → Needs → Needs
    unfolding add_names bound_of
    need_of b none n = record n { ready = false }
    need_of b (some probe) n = record n {
      ready = false;
      tables = add_names n.tables (tables_in (bound_of b (concept_refs st probe.sql)));
      ids = add_names n.ids (ids_of (bound_of b (concept_refs st probe.sql)));
    }

    pub needs_one : Investigation F → Binding → PlannedProbe F → Needs → Needs
    unfolding need_of find_probe
    needs_one inv b pp n =
        if not pp.skipped
        then n
        else if not pp.fixable
        then record n {
          blocked = n.blocked ++ str_append pp.name (str_append " — " pp.reason) ∷ [];
        }
        else need_of b (find_probe pp.name inv.probes) n

    pub needs_from : Investigation F → Binding → Needs → List (PlannedProbe F) → Needs
    unfolding needs_one
    needs_from inv b n [] = n
    needs_from inv b n (pp ∷ pps) = needs_from inv b (needs_one inv b pp n) pps

    pub readiness_of : (Plan F → List String → String) → Plan F → Needs → Readiness
    readiness_of fix plan n = record {
      ready = if plan.runnable == 0 then false else n.ready;
      missing = st.sort n.tables;
      blocked = n.blocked;
      fix_command = if n.ready then "" else fix plan (st.sort n.ids);
      dataset_ids = st.sort n.ids;
    }

    -- `Plan.Assess`; `fix` writes the command.
    pub assess : (Plan F → List String → String) → Plan F → Investigation F → Binding → Readiness
    unfolding needs_from readiness_of
    assess fix plan inv b = readiness_of fix plan (
        needs_from inv b (record { ready = true; blocked = []; tables = []; ids = [] }) plan.probes)
