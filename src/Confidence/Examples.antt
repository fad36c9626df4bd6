-- ===== src/Confidence/Examples.antt =====
-- Floats that are 0 or a power of a half, and a report of two datasets.
use civic_soda_quack.Prelude.{
  ℕ, zero, suc, ◌+◌, ◌≡◌, ◌≤◌, refl, Bool, true, false, Option, none, some, List, [], ◌∷◌, ◌++◌,
  arith, ltb, leb, String,
}
use civic_soda_quack.Confidence.{
  pass, warn, fail, unknown, Level, scored, diagnostic, Kind, insufficient, Floats, Signal,
  DatasetReport, Report, counts, with_score, finalize, all_signals,
}
use civic_soda_quack.Confidence.Ceiling.{IsOrdered, Within, finalize_ceiling}
use civic_soda_quack.Confidence.Display.{Displays, finalize-Displays}

-- `some n` is a half to the power of `n`.
abbrev Half : Type 0
Half = Option ℕ

abbrev half_less : Half → Half → Bool
half_less none none = false
half_less none (some n) = true
half_less (some m) none = false
half_less (some m) (some n) = ltb n m

abbrev half_less_eq : Half → Half → Bool
half_less_eq none b = true
half_less_eq (some m) none = false
half_less_eq (some m) (some n) = leb n m

abbrev half_times : Half → Half → Half
half_times none b = none
half_times (some m) none = none
half_times (some m) (some n) = some (m + n)

abbrev half_percent : Half → ℕ
half_percent none = 0
half_percent (some zero) = 100
half_percent (some (suc zero)) = 50
half_percent (some (suc (suc n))) = 25

abbrev halves : Floats Half
halves = record {
  nought = none;
  one = some 0;
  warn_below = some 0;
  fail_below = some 1;
  less = half_less;
  less_eq = half_less_eq;
  times = half_times;
  ratio = λ a b. some 0;
  percent = half_percent;
}

half_refl : (a : Half) → half_less_eq a a ≡ true
half_refl none = refl
half_refl (some n) = ground arith

half_trans :
    (a b c : Half) → half_less_eq a b ≡ true → half_less_eq b c ≡ true → half_less_eq a c ≡ true
half_trans none b c h k = refl
half_trans (some m) none c h k = cc
half_trans (some m) (some n) none h k = cc
half_trans (some m) (some n) (some p) h k = ground arith

half_total : (a b : Half) → half_less a b ≡ false → half_less_eq b a ≡ true
half_total none none h = refl
half_total none (some n) h = cc
half_total (some m) none h = refl
half_total (some m) (some n) h = ground arith

half_falls :
    (a c : Half)
    → half_less_eq none a ≡ true
    → half_less_eq c (some 0) ≡ true
    → half_less_eq (half_times a c) a ≡ true
half_falls none c h k = refl
half_falls (some m) none h k = refl
half_falls (some m) (some n) h k = ground arith

half_monotone :
    (a b c : Half)
    → half_less_eq a b ≡ true
    → half_less_eq none c ≡ true
    → half_less_eq (half_times a c) (half_times b c) ≡ true
half_monotone none b c h k = refl
half_monotone (some m) none c h k = cc
half_monotone (some m) (some n) none h k = refl
half_monotone (some m) (some n) (some p) h k = ground arith

half_percent_monotone : (a b : Half) → half_less_eq a b ≡ true → half_percent a ≤ half_percent b
half_percent_monotone none b h = omega arith
half_percent_monotone (some m) none h = cc
half_percent_monotone (some zero) (some zero) h = omega arith
half_percent_monotone (some zero) (some (suc n)) h = ground arith
half_percent_monotone (some (suc zero)) (some zero) h = omega arith
half_percent_monotone (some (suc zero)) (some (suc zero)) h = omega arith
half_percent_monotone (some (suc zero)) (some (suc (suc n))) h = ground arith
half_percent_monotone (some (suc (suc m))) (some zero) h = omega arith
half_percent_monotone (some (suc (suc m))) (some (suc zero)) h = omega arith
half_percent_monotone (some (suc (suc m))) (some (suc (suc n))) h = omega arith

halves-IsOrdered : IsOrdered halves
halves-IsOrdered = record {
  le_refl = half_refl;
  le_trans = half_trans;
  not_less = half_total;
  nought_le_one = refl;
  times_positive = λ a c h k. refl;
  times_falls = half_falls;
  times_monotone = half_monotone;
  percent_monotone = half_percent_monotone;
}

abbrev check : String → Level → Kind → Half → Signal Half
check name level kind score = record {
  name = name;
  level = level;
  kind = kind;
  score = score;
  lost = 0;
  of = 10;
  dataset = "d";
}

abbrev dataset : List (Signal Half) → DatasetReport Half
dataset signals = record {
  table = "d";
  age_days = some 3;
  signals = signals;
  score = 0;
  band = insufficient;
}

abbrev parks : DatasetReport Half
parks =
    dataset
      (check "usability" fail scored (some 1) ∷ check "completeness" pass scored (some 0) ∷ [])

abbrev trees : DatasetReport Half
trees = dataset (
    check "completeness" unknown scored none
    ∷ check "freshness" warn diagnostic none
    ∷ check "usability" fail scored (some 1)
    ∷ [])

abbrev report : Report Half
report = record {
  score = 0;
  band = insufficient;
  datasets = parks ∷ trees ∷ [];
  signals = [];
  freshness_days = none;
  coverage = 0;
  assessed = false;
}

-- Half of a half is left.
quarter : (finalize halves report).score ≡ 25
unfolding finalize
quarter = refl

finalize_ceiling_example :
    Within halves halves-IsOrdered (finalize halves report) (with_score halves trees).score
unfolding counts
finalize_ceiling_example =
    finalize_ceiling halves halves-IsOrdered report (parks ∷ []) [] trees refl refl

finalize-Displays_example :
    Displays 4
      (report.signals ++ all_signals halves report.datasets)
      (finalize halves report).signals
finalize-Displays_example = finalize-Displays halves report 4
