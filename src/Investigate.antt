-- ===== src/Investigate.antt =====
-- An investigation of a question, internal/investigate: the numbers, records and lookups that its steps
-- share (investigate.go, analyze.go, challenge.go, validate.go, plan.go). A float64 is an element of `F`
-- with the operations that the code uses; `sprintf` is fmt.Sprintf. A year is an integer.
pub mod Challenges
pub mod Changes
pub mod Discover
pub mod Explain
pub mod Extent
pub mod Measure
pub mod Plans
pub mod Probes
pub mod Run
pub mod Validate
mod Examples
use civic_soda_quack.Prelude.{
  ℕ, String, Bool, true, false, not, ◌&&◌, ◌||◌, Option, none, some, List, [], ◌∷◌, str_eq,
  if◌then◌else◌,
}
use civic_soda_quack.Prelude.Int.{ℤ}
use civic_soda_quack.Confidence.Targets.{EvidenceTarget}

pub data Direction : Type 0 where
  up down flat : Direction

abbrev pub same_direction : Direction → Direction → Bool
same_direction up up = true
same_direction down down = true
same_direction flat flat = true
same_direction _ _ = false

pub record Numbers (F : Type 0) : Type 0 where
  pub nought : F
  pub one : F
  pub half : F  -- 0.5
  pub hundred : F
  pub material_change : F  -- 0.05
  pub less : F → F → Bool
  pub less_eq : F → F → Bool
  pub same : F → F → Bool
  pub negate : F → F
  pub plus : F → F → F
  pub minus : F → F → F
  pub times : F → F → F
  pub over : F → F → F
  pub of_count : ℕ → F  -- `float64(n)`
  pub to_int : F → ℤ  -- `int(f)`

-- What a format is applied to.
pub data Arg (F : Type 0) : Type 0 where
  int : ℤ → Arg F
  text : String → Arg F
  float : F → Arg F

pub record Point (F : Type 0) : Type 0 where
  pub period : ℤ
  pub value : F
  pub denominator : F
  pub indicator : F
  pub complete : Bool

pub record ChallengeResult : Type 0 where
  pub name : String
  pub asks : String
  pub survived : Bool
  pub verdict : String
  pub withdrew : Bool

pub record Finding (F : Type 0) : Type 0 where
  pub probe : String
  pub asks : String
  pub direction : Direction
  pub change : F
  pub latest : F
  pub latest_period : ℤ
  pub baseline : F
  pub baseline_from : ℤ
  pub baseline_to : ℤ
  pub unit : String
  pub per : String
  pub supports : Bool
  pub headline : String
  pub series : List (Point F)
  pub sql : String
  pub caveats : List String
  pub withdrawn : Bool
  pub withdrawn_by : String
  pub challenges : List ChallengeResult

pub record Unanswered : Type 0 where
  pub probe : String
  pub asks : String
  pub reason : String

pub record Analysis (F : Type 0) : Type 0 where
  pub findings : List (Finding F)
  pub unanswered : List Unanswered

pub record Probe (F : Type 0) : Type 0 where
  pub name : String
  pub asks : String
  pub concept : String
  pub period_column : String
  pub sql : String
  pub unit : String
  pub per : String
  pub scale : F
  pub measures_absence_of : List String
  pub settles_after : ℤ
  pub supports : Direction
  pub rise_means : String
  pub fall_means : String
  pub caveats : List String

pub record Investigation (F : Type 0) : Type 0 where
  pub name : String
  pub title : String
  pub claim : String
  pub mode : String
  pub terms : List String  -- Match
  pub probes : List (Probe F)
  pub caveats : List String

pub record PlannedProbe (F : Type 0) : Type 0 where
  pub name : String
  pub asks : String
  pub supports : Direction
  pub unit : String
  pub per : String
  pub sql : String
  pub tables : List String
  pub concept : String
  pub period_column : String
  pub skipped : Bool
  pub reason : String
  pub fixable : Bool
  pub probe : Probe F
  pub targets : List EvidenceTarget

pub record Coverage : Type 0 where
  pub concept : String
  pub table : String
  pub column : String
  pub first : String
  pub last : String
  pub first_complete : ℤ
  pub last_complete : ℤ
  pub partial_first : ℤ
  pub partial : ℤ
  pub known : Bool

-- What is read of a confidence.Report: of every dataset the table and the completeness.
pub record Evidence (F : Type 0) : Type 0 where
  pub assessed : Bool
  pub score : ℕ
  pub freshness_days : Option ℕ
  pub datasets : List (String × F)

pub record Plan (F : Type 0) : Type 0 where
  pub investigation : String
  pub claim : String
  pub mode : String
  pub city : String
  pub portal : String
  pub probes : List (PlannedProbe F)
  pub runnable : ℕ
  pub total : ℕ

-- `Validation`
pub record Validation (F : Type 0) : Type 0 where
  pub coverage : List Coverage
  pub notes : List String
  pub evidence : Option (Evidence F)

-- `coverageFor`, of the coverage of a validation.
pub coverage_for : String → List Coverage → Option Coverage
coverage_for concept [] = none
coverage_for concept (c ∷ cs) = if str_eq c.concept concept then some c else coverage_for concept cs

module _ {F : Type 0} (nm : Numbers F) where
  -- `absf`
  pub abs : F → F
  abs f = if nm.less f nm.nought then nm.negate f else f

  -- `Probe.scale`
  pub scale_of : Probe F → F
  scale_of p = if nm.less_eq p.scale nm.nought then nm.one else p.scale

module _ {F : Type 0} where
  -- `Finding.Counts`
  pub counts : Finding F → Bool
  counts f = not f.withdrawn && not (same_direction f.direction flat)

  -- `conceptOf` and `tablesOf`, of the probes of a plan.
  pub concept_of : String → List (PlannedProbe F) → String
  concept_of probe [] = ""
  concept_of probe (pp ∷ pps) = if str_eq pp.name probe then pp.concept else concept_of probe pps

  pub tables_of : String → List (PlannedProbe F) → List String
  tables_of probe [] = []
  tables_of probe (pp ∷ pps) = if str_eq pp.name probe then pp.tables else tables_of probe pps
