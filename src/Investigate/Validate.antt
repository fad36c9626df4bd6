-- ===== src/Investigate/Validate.antt =====
-- What the evidence of a plan can bear: Validate of internal/investigate/validate.go. confidence.Assess
-- is a parameter, of which the report's evidence is kept.
use civic_soda_quack.Prelude.{
  ℕ, String, str_append, Bool, false, ◌&&◌, ◌||◌, not, Option, none, some, List, [], ◌∷◌, ◌++◌,
  str_eq, if◌then◌else◌, ltb,
}
use civic_soda_quack.Prelude.Int.{ℤ, pos, ◌-ℤ◌, ltb_ℤ, leb_ℤ, eqb_ℤ}
use civic_soda_quack.Prelude.Maps.{get}
use civic_soda_quack.Prelude.Sorts.{stable_sort}
use civic_soda_quack.Prelude.Texts.{contains}
use civic_soda_quack.Modes.{BoundDataset, Concept, Binding, Mode, find_concept}
use civic_soda_quack.Modes.Concepts.{qualified, canonical_view}
use civic_soda_quack.Confidence.Targets.{EvidenceTarget}
use civic_soda_quack.Investigate.{
  Arg, int, text, PlannedProbe, Coverage, Plan, Evidence, Validation, coverage_for,
}
use civic_soda_quack.Investigate.Plans.{targets_from}

abbrev pub unmeasured : String → String → String → Coverage
unmeasured concept table column = record {
  concept = concept;
  table = table;
  column = column;
  first = "";
  last = "";
  first_complete = pos 0;
  last_complete = pos 0;
  partial_first = pos 0;
  partial = pos 0;
  known = false;
}

-- The order of `Validate`; `less` is the order of texts.
abbrev pub table_before : (String → String → Bool) → Coverage → Coverage → Bool
table_before less c d = less c.table d.table

module _ {F : Type 0} (measure : String → String → Coverage → Coverage) where
  -- The coverage of a bound concept that the mode declares.
  pub cover : String → PlannedProbe F → Option BoundDataset → Option Concept → List Coverage
  cover alias pp none c = []
  cover alias pp (some bd) none = []
  cover alias pp (some bd) (some c) =
      measure (canonical_view c (qualified alias bd) bd) pp.period_column
        (unmeasured pp.concept bd.table pp.period_column)
      ∷ []

  abbrev pub is_new : List String → PlannedProbe F → Bool
  is_new seen pp =
      not (pp.skipped || str_eq pp.concept "" || str_eq pp.period_column "")
      && not (contains seen (str_append pp.concept (str_append "." pp.period_column)))

  abbrev pub key_of : PlannedProbe F → String
  key_of pp = str_append pp.concept (str_append "." pp.period_column)

  -- The first loop of `Validate`; `seen` are the keys of before.
  pub coverages : Mode → String → Binding → List String → List (PlannedProbe F) → List Coverage
  unfolding cover
  coverages m alias b seen [] = []
  coverages m alias b seen (pp ∷ pps) =
      if is_new seen pp
      then cover alias pp (get pp.concept b.concepts) (find_concept m.concepts pp.concept)
        ++ coverages m alias b (key_of pp ∷ seen) pps
      else coverages m alias b seen pps

module _ {F : Type 0} (sprintf : String → List (Arg F) → String) where
  abbrev pub noted : Bool → String → List String
  noted b s = if b then s ∷ [] else []

  -- The notes on one coverage, in the year `now`.
  pub coverage_notes : ℤ → Coverage → List String
  coverage_notes now cov =
      (if not cov.known
        then sprintf
            "%s: coverage could not be measured, so no period of it can be assumed complete"
            (text cov.table ∷ [])
          ∷ []
        else noted (not (eqb_ℤ cov.partial (pos 0))) (
            sprintf "%s ends %s, so %d is incomplete and is excluded from every measurement below"
              (text cov.table ∷ text cov.last ∷ int cov.partial ∷ [])))
      ++ noted (cov.known && not (eqb_ℤ cov.partial_first (pos 0))) (
          sprintf "%s begins %s, so %d is a part-year and is excluded from every measurement below"
            (text cov.table ∷ text cov.first ∷ int cov.partial_first ∷ []))
      ++ noted
          (cov.known
            && eqb_ℤ cov.partial (pos 0)
            && ltb_ℤ (pos 0) cov.last_complete
            && ltb_ℤ cov.last_complete (now -ℤ pos 1))
          (sprintf "%s holds nothing after %d — its record stops %d years before now"
            (text cov.table ∷ int cov.last_complete ∷ int (now -ℤ cov.last_complete) ∷ []))

  pub all_coverage_notes : ℤ → List Coverage → List String
  unfolding coverage_notes
  all_coverage_notes now [] = []
  all_coverage_notes now (cov ∷ covs) = coverage_notes now cov ++ all_coverage_notes now covs

  abbrev pub settling_note : PlannedProbe F → Option Coverage → List String
  settling_note pp none = []
  settling_note pp (some cov) = noted cov.known (
      sprintf
        "%q reads a field that fills in after the fact, so it is measured only to %d — the %d period(s) since are shown and not measured"
        (text pp.asks
          ∷ int (cov.last_complete -ℤ pp.probe.settles_after)
          ∷ int pp.probe.settles_after
          ∷ []))

  -- The notes of the last loop.
  pub settling_notes : List Coverage → List (PlannedProbe F) → List String
  settling_notes covs [] = []
  settling_notes covs (pp ∷ pps) =
      let rest = settling_notes covs pps in
      if pp.skipped || leb_ℤ pp.probe.settles_after (pos 0)
      then rest
      else settling_note pp (coverage_for pp.concept covs) ++ rest

  abbrev pub stale_note : Option ℕ → List String
  stale_note none = []
  stale_note (some days) = noted (ltb 90 days) (
      sprintf "the stalest dataset behind this answer was last updated upstream %d days ago"
        (int (pos days) ∷ []))

  abbrev pub freshness_notes : Option (Evidence F) → List String
  freshness_notes none = []
  freshness_notes (some e) = stale_note e.freshness_days

  -- The validation of measured coverages.
  pub validation_of : ℤ → List (PlannedProbe F) → Option (Evidence F) → List Coverage → Validation F
  unfolding all_coverage_notes settling_notes
  validation_of now pps evidence covs = record {
    coverage = covs;
    notes = all_coverage_notes now covs ++ settling_notes covs pps ++ freshness_notes evidence;
    evidence = evidence;
  }

  -- `Validate`, with a mode.
  pub validate :
      (String → String → Bool)
      → (String → String → Coverage → Coverage)
      → (List EvidenceTarget → Option (Evidence F))
      → ℤ
      → Mode
      → String
      → Binding
      → Plan F
      → Validation F
  unfolding validation_of stable_sort coverages
  validate less measure assess now m alias b plan =
      validation_of now plan.probes (assess (targets_from [] plan.probes))
        (stable_sort (table_before less) (coverages measure m alias b [] plan.probes))
