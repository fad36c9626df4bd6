-- ===== src/Investigate/Explain.antt =====
-- What an investigation concludes: internal/investigate/report.go. `trim` is strings.TrimSpace.
pub mod Caveats
pub mod Counts
pub mod Percent
use civic_soda_quack.Prelude.{
  ℕ, zero, suc, ◌+◌, String, str_append, Bool, true, false, ◌&&◌, ◌||◌, not, Option, none, some,
  List, [], ◌∷◌, ◌++◌, map, str_eq, if◌then◌else◌, ltb, ◌==◌, length,
}
use civic_soda_quack.Prelude.Int.{ℤ, pos, ltb_ℤ}
use civic_soda_quack.Prelude.Texts.{add_trimmed, join}
use civic_soda_quack.Investigate.{
  Direction, flat, same_direction, Numbers, Arg, int, text, Point, ChallengeResult, Finding,
  Unanswered, Analysis, PlannedProbe, Evidence, Plan, Validation,
}

pub data Verdict : Type 0 where
  evidence_supports evidence_contradicts evidence_mixed evidence_insufficient : Verdict

pub record Tally : Type 0 where
  pub supporting : ℕ
  pub against : ℕ
  pub withdrawn : ℕ
  pub flat : ℕ

abbrev pub no_tally : Tally
no_tally = record { supporting = 0; against = 0; withdrawn = 0; flat = 0 }

-- The switch at the end of `verdict`.
pub verdict_of : Tally → Verdict
verdict_of t =
    if ltb 0 t.supporting && ltb 0 t.against
    then evidence_mixed
    else if ltb 0 t.supporting
    then evidence_supports
    else if ltb 0 t.against
    then evidence_contradicts
    else evidence_insufficient

module _ {F : Type 0} where
  pub tally_one : Finding F → Tally → Tally
  tally_one f t =
      if f.withdrawn
      then record t { withdrawn = t.withdrawn + 1 }
      else if same_direction f.direction flat
      then record t { flat = t.flat + 1 }
      else if f.supports
      then record t { supporting = t.supporting + 1 }
      else record t { against = t.against + 1 }

  -- The loop of `verdict`.
  pub tally_from : Tally → List (Finding F) → Tally
  unfolding tally_one
  tally_from t [] = t
  tally_from t (f ∷ fs) = tally_from (tally_one f t) fs

  pub tally : List (Finding F) → Tally
  unfolding tally_from
  tally fs = tally_from no_tally fs

  -- `verdict`, without its reason.
  pub verdict : List (Finding F) → Verdict
  unfolding tally verdict_of
  verdict fs = verdict_of (tally fs)

  -- `Surviving` and `Withdrawn`
  pub surviving : List (Finding F) → List (Finding F)
  surviving [] = []
  surviving (f ∷ fs) = let rest = surviving fs in if not f.withdrawn then f ∷ rest else rest

  pub withdrawn_ones : List (Finding F) → List (Finding F)
  withdrawn_ones [] = []
  withdrawn_ones (f ∷ fs) = let rest = withdrawn_ones fs in if f.withdrawn then f ∷ rest else rest

module _ {F : Type 0} (sprintf : String → List (Arg F) → String) where
  abbrev pub part : ℕ → String → List String
  part n format = if ltb 0 n then sprintf format (int (pos n) ∷ []) ∷ [] else []

  -- `VerdictWhy`
  pub verdict_why : ℕ → ℕ → Tally → String
  unfolding join
  verdict_why measured total t =
      str_append
        (join "; " (
          sprintf "%d of %d planned indicators produced a measurement"
              (int (pos measured) ∷ int (pos total) ∷ [])
            ∷ part t.supporting "%d moved as the plan said would support the claim"
          ++ part t.against "%d moved against it"
          ++ part t.flat "%d did not move materially"
          ++ part t.withdrawn "%d were withdrawn under challenge"))
        "."

-- `withdrawalReason`, of the challenges of a finding.
pub withdrawal_reason : List ChallengeResult → String
withdrawal_reason [] = "it did not survive challenge"
withdrawal_reason (c ∷ cs) = if c.withdrew then c.verdict else withdrawal_reason cs

-- The objections that a finding that stands has not survived.
pub objections : String → List ChallengeResult → List String
objections probe [] = []
objections probe (c ∷ cs) =
    let rest = objections probe cs in
    if not c.survived && not c.withdrew
    then str_append probe (str_append ": " c.verdict) ∷ rest
    else rest

module _ {F : Type 0} (sprintf : String → List (Arg F) → String) where
  abbrev pub quoted : String → String → String → String
  quoted format asks why = sprintf format (text asks ∷ text why ∷ [])

  pub finding_caveats : List (Finding F) → List String
  unfolding withdrawal_reason objections
  finding_caveats [] = []
  finding_caveats (f ∷ fs) =
      let rest = finding_caveats fs in
      if f.withdrawn
      then quoted "%q was withdrawn: %s" f.asks (withdrawal_reason f.challenges) ∷ rest
      else objections f.probe f.challenges ++ rest

  pub unanswered_caveats : List Unanswered → List String
  unanswered_caveats [] = []
  unanswered_caveats (u ∷ us) =
      quoted "%q went unanswered: %s" u.asks u.reason ∷ unanswered_caveats us

  pub skipped_caveats : List (PlannedProbe F) → List String
  skipped_caveats [] = []
  skipped_caveats (pp ∷ pps) =
      let rest = skipped_caveats pps in
      if pp.skipped then quoted "%q was not run — %s" pp.asks pp.reason ∷ rest else rest

module _ {F : Type 0} where
  pub standing_caveats : List (Finding F) → List String
  standing_caveats [] = []
  standing_caveats (f ∷ fs) =
      let rest = standing_caveats fs in if f.withdrawn then rest else f.caveats ++ rest

module _ (trim : String → String) where
  -- `AddCaveats`, on the caveats of a report.
  pub add_caveats : List String → List String → List String
  add_caveats out [] = out
  add_caveats out (s ∷ ss) = add_caveats (add_trimmed trim s out) ss

module _ {F : Type 0} (trim : String → String) (sprintf : String → List (Arg F) → String) where
  -- `caveats`
  unfoldable pub caveats : Validation F → Analysis F → Plan F → List String
  unfolding add_caveats finding_caveats unanswered_caveats skipped_caveats standing_caveats
  caveats v a plan = add_caveats trim [] (
      v.notes
      ++ finding_caveats sprintf a.findings
      ++ unanswered_caveats sprintf a.unanswered
      ++ skipped_caveats sprintf plan.probes
      ++ standing_caveats a.findings)

module _ {F : Type 0} (nm : Numbers F) where
  -- `pct`
  pub pct : F → ℤ
  pct f =
      let n = nm.to_int (nm.plus (nm.times f nm.hundred) nm.half) in
      if nm.less_eq f nm.nought
      then pos 0
      else if ltb_ℤ n (pos 1)
      then pos 1
      else if ltb_ℤ (pos 100) n
      then pos 100
      else n

  -- `answered`, of the numbers of findings and of planned indicators; a report has a plan.
  pub answered : ℕ → ℕ → F
  answered findings total =
      if total == 0 then nm.nought else nm.over (nm.of_count findings) (nm.of_count total)

-- What `confidence` sets.
pub record Figures : Type 0 where
  pub coverage : ℤ
  pub retention : ℕ
  pub assessed : Bool
  pub confidence : ℤ

module _ {F : Type 0} (nm : Numbers F) where
  abbrev pub unassessed : ℤ → Figures
  unassessed coverage = record {
    coverage = coverage;
    retention = 0;
    assessed = false;
    confidence = pos 0;
  }

  -- `confidence`
  pub confidence : Option (Evidence F) → ℕ → ℕ → Figures
  unfolding pct answered
  confidence none findings total = unassessed (pct nm (answered nm findings total))
  confidence (some e) findings total =
      if e.assessed
      then record {
        coverage = pct nm (answered nm findings total);
        retention = e.score;
        assessed = true;
        confidence =
            pct nm
              (nm.times (nm.over (nm.of_count e.score) nm.hundred) (answered nm findings total));
      }
      else unassessed (pct nm (answered nm findings total))

pub record Report (F : Type 0) : Type 0 where
  pub plan : Plan F
  pub validation : Validation F
  pub analysis : Analysis F
  pub verdict : Verdict
  pub verdict_why : String
  pub figures : Figures
  pub caveats : List String

module _ {F : Type 0} (nm : Numbers F) (trim : String → String)
    (sprintf : String → List (Arg F) → String) where
  -- `finalize`
  unfoldable pub finalize : Plan F → Validation F → Analysis F → Report F
  unfolding verdict verdict_why tally confidence caveats
  finalize plan v a = record {
    plan = plan;
    validation = v;
    analysis = a;
    verdict = verdict a.findings;
    verdict_why = verdict_why sprintf (length a.findings) plan.total (tally a.findings);
    figures = confidence nm v.evidence (length a.findings) plan.total;
    caveats = caveats trim sprintf v a plan;
  }
