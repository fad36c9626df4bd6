-- ===== src/Confidence.antt =====
-- How much of the evidence behind an answer is left: internal/confidence/confidence.go. Sentences and
-- times are left out of a signal and a report. A float64 is an element of `F`, with the operations that
-- the code uses; counts are natural numbers.
pub mod Signals
pub mod Targets
pub mod Ceiling
pub mod Display
mod Examples
use civic_soda_quack.Prelude.{
  ℕ, zero, suc, ◌+◌, String, Bool, true, false, ◌&&◌, ◌||◌, not, Option, none, some, List, [], ◌∷◌,
  ◌++◌, map, ltb, leb, ◌==◌, if◌then◌else◌,
}

pub data Level : Type 0 where
  pass warn fail unknown : Level

pub data Kind : Type 0 where
  scored diagnostic : Kind

pub data Band : Type 0 where
  high moderate low insufficient : Band

pub record Floats (F : Type 0) : Type 0 where
  pub nought : F
  pub one : F
  pub warn_below : F  -- 0.999
  pub fail_below : F  -- 0.90
  pub less : F → F → Bool
  pub less_eq : F → F → Bool
  pub times : F → F → F
  pub ratio : ℕ → ℕ → F  -- `float64(a) / float64(b)`
  pub percent : F → ℕ  -- `int(f*100 + 0.5)` of a positive `f`

pub record Signal (F : Type 0) : Type 0 where
  pub name : String
  pub level : Level
  pub kind : Kind
  pub score : F
  pub lost : ℕ
  pub of : ℕ
  pub dataset : String

pub record DatasetReport (F : Type 0) : Type 0 where
  pub table : String
  pub age_days : Option ℕ
  pub signals : List (Signal F)
  pub score : ℕ
  pub band : Band

pub record Report (F : Type 0) : Type 0 where
  pub score : ℕ
  pub band : Band
  pub datasets : List (DatasetReport F)
  pub signals : List (Signal F)
  pub freshness_days : Option ℕ
  pub coverage : ℕ
  pub assessed : Bool

-- `Grade`
pub grade : ℕ → Band
grade score =
    if leb 95 score
    then high
    else if leb 80 score
    then moderate
    else if leb 50 score
    then low
    else insufficient

abbrev pub is_scored : Kind → Bool
is_scored scored = true
is_scored diagnostic = false

abbrev pub is_unknown : Level → Bool
is_unknown pass = false
is_unknown warn = false
is_unknown fail = false
is_unknown unknown = true

abbrev pub is_pass : Level → Bool
is_pass pass = true
is_pass warn = false
is_pass fail = false
is_pass unknown = false

abbrev pub is_problem : Level → Bool
is_problem pass = false
is_problem warn = true
is_problem fail = true
is_problem unknown = false

-- The rank of a level; of the warnings an advisory one comes first.
abbrev pub rank_of : Bool → Level → ℕ
rank_of a pass = 0
rank_of a unknown = 1
rank_of true warn = 2
rank_of false warn = 3
rank_of a fail = 4

-- The larger of two ages.
abbrev pub stalest : Option ℕ → Option ℕ → Option ℕ
stalest none current = current
stalest (some days) none = some days
stalest (some days) (some n) = if ltb n days then some days else some n

module _ {F : Type 0} where
  -- `counts`
  pub counts : Signal F → Bool
  counts s = is_scored s.kind && not (is_unknown s.level)

  -- `Advisory`
  pub advisory : Signal F → Bool
  advisory s = not (is_scored s.kind)

  -- `levelRank`
  pub level_rank : Signal F → ℕ
  unfolding advisory
  level_rank s = rank_of (advisory s) s.level

  -- `sortSignals`: a stable sort by rank.
  pub insert_signal : Signal F → List (Signal F) → List (Signal F)
  unfolding level_rank
  insert_signal s [] = s ∷ []
  insert_signal s (t ∷ ts) =
      let later = insert_signal s ts in
      if ltb (level_rank t) (level_rank s) then t ∷ later else s ∷ t ∷ ts

  pub sort_signals : List (Signal F) → List (Signal F)
  unfolding insert_signal
  sort_signals [] = []
  sort_signals (s ∷ ss) = insert_signal s (sort_signals ss)

  pub select : (Level → Bool) → List (Signal F) → List (Signal F)
  select p [] = []
  select p (s ∷ ss) = let rest = select p ss in if p s.level then s ∷ rest else rest

  pub problems : List (Signal F) → List (Signal F)
  unfolding select
  problems = select is_problem

  pub confirmations : List (Signal F) → List (Signal F)
  unfolding select
  confirmations = select is_pass

  pub unmeasured : List (Signal F) → List (Signal F)
  unfolding select
  unmeasured = select is_unknown

module _ {F : Type 0} (fl : Floats F) where
  open fl use {nought, one, less, less_eq, times}

  -- `LevelFor`
  pub level_for : F → Level
  level_for retention =
      if less_eq fl.warn_below retention
      then pass
      else if less_eq fl.fail_below retention
      then warn
      else fail

  -- `clamp01`
  pub clamp : F → F
  clamp f = if less f nought then nought else if less one f then one else f

  -- `pctOf`
  pub pct_of : F → ℕ
  pct_of f =
      if less_eq f nought
      then 0
      else if ltb (fl.percent f) 1
      then 1
      else if ltb 100 (fl.percent f)
      then 100
      else fl.percent f

  -- The loop over the signals of one dataset: the product and the number of factors.
  pub factors : F → ℕ → List (Signal F) → F × ℕ
  unfolding counts clamp
  factors product measured [] = (product, measured)
  factors product measured (s ∷ ss) =
      let with_it = factors (times product (clamp s.score)) (suc measured) ss in
      let without = factors product measured ss in if counts s then with_it else without

  abbrev pub scored_by : F × ℕ → ℕ × Band
  scored_by (product, zero) = (0, insufficient)
  scored_by (product, suc measured) = (pct_of product, grade (pct_of product))

  -- `scoreSignals`
  pub score_signals : List (Signal F) → ℕ × Band
  unfolding factors pct_of grade
  score_signals ss = scored_by (factors one 0 ss)

  -- The scored signals that could not be measured.
  pub gaps : List (Signal F) → ℕ
  gaps [] = 0
  gaps (s ∷ ss) =
      let rest = gaps ss in if is_scored s.kind && is_unknown s.level then suc rest else rest

  pub with_score : DatasetReport F → DatasetReport F
  unfolding score_signals
  with_score d = record d {
    score = (score_signals d.signals).0;
    band = (score_signals d.signals).1;
  }

  -- The loop of `finalize` over the datasets.
  pub gather : F → ℕ → ℕ → List (DatasetReport F) → (F × ℕ) × ℕ
  unfolding factors gaps
  gather product measured missing [] = ((product, measured), missing)
  gather product measured missing (d ∷ ds) =
      let (product', measured') = factors product measured d.signals in
      gather product' measured' (missing + gaps d.signals) ds

  pub all_signals : List (DatasetReport F) → List (Signal F)
  all_signals [] = []
  all_signals (d ∷ ds) = d.signals ++ all_signals ds

  pub oldest : Option ℕ → List (DatasetReport F) → Option ℕ
  oldest current [] = current
  oldest current (d ∷ ds) = oldest (stalest d.age_days current) ds

  pub settled_report : Report F → List (DatasetReport F) → (F × ℕ) × ℕ → Report F
  unfolding pct_of grade oldest all_signals sort_signals
  settled_report r ds ((product, zero), missing) = record {
    score = 0;
    band = insufficient;
    datasets = ds;
    signals = sort_signals (r.signals ++ all_signals ds);
    freshness_days = r.freshness_days;
    coverage = 0;
    assessed = false;
  }
  settled_report r ds ((product, suc measured), missing) = record {
    score = pct_of product;
    band = grade (pct_of product);
    datasets = ds;
    signals = sort_signals (r.signals ++ all_signals ds);
    freshness_days = oldest r.freshness_days ds;
    coverage = pct_of (fl.ratio (suc measured) (suc measured + missing));
    assessed = true;
  }

  -- `finalize`
  pub finalize : Report F → Report F
  unfolding with_score gather settled_report
  finalize r =
      settled_report r (map with_score r.datasets) (gather one 0 0 (map with_score r.datasets))
