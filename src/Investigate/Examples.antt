-- ===== src/Investigate/Examples.antt =====
-- One indicator over five years. A float is a number of hundredths.
use Prim.Native.String.{len}
use civic_soda_quack.Modes.Concepts.Refs.{IsCut}
use civic_soda_quack.Prelude.{
  refl, inl, inr, Bool-cases, eq_iff, ◌+◌, ℕ, zero, suc, ◌+◌, ◌*◌, ◌/◌, ◌≡◌, ◌↔◌, String, Bool,
  true, false, ◌&&◌, ◌||◌, Option, none, some, List, [], ◌∷◌, ok, str_eq, ltb, if◌then◌else◌, arith,
}
use civic_soda_quack.Prelude.Int.{ℤ, pos, negsuc, ◌+ℤ◌, ◌-ℤ◌, ◌≤ℤ◌, ltb_ℤ, leb_ℤ, eqb_ℤ}
use civic_soda_quack.Prelude.Sorts.{IsOrder}
use mathlib.Core.List.{Perm}
use civic_soda_quack.Prelude.Sorts.{IsSorted}
use civic_soda_quack.Modes.{Binding, Mode, Strings}
use civic_soda_quack.Investigate.{down, Numbers, Arg, Investigation, Probe, Point, Coverage}
use civic_soda_quack.Investigate.Extent.{Times, spanned}
use civic_soda_quack.Investigate.Extent.Spans.{IsCalendar, Spans, spanned_iff}
use civic_soda_quack.Investigate.Plans.{make_plan}
use civic_soda_quack.Investigate.Plans.Runs.{IsPlan, make_plan-IsPlan}
use civic_soda_quack.Investigate.Discover.{Candidate, has_more, discover}
use civic_soda_quack.Investigate.Discover.Routes.{IsTotal, Routed, candidates, discover-Routed}
use civic_soda_quack.Investigate.Validate.{unmeasured}
use civic_soda_quack.Investigate.Run.{Asks, run}
use civic_soda_quack.Investigate.Run.Counted.{Concludes, run-Concludes}

abbrev negative : ℕ → ℤ
negative zero = pos 0
negative (suc n) = negsuc n

abbrev negated : ℤ → ℤ
negated (pos n) = negative n
negated (negsuc n) = pos (suc n)

abbrev over_hundredths : ℤ → ℤ → ℤ
over_hundredths (pos a) (pos b) = pos (a * 100 / b)
over_hundredths (negsuc a) (pos b) = negative (suc a * 100 / b)
over_hundredths a (negsuc b) = pos 0

abbrev times_hundredths : ℤ → ℤ → ℤ
times_hundredths (pos a) (pos b) = pos (a * b / 100)
times_hundredths (negsuc a) (pos b) = negative (suc a * b / 100)
times_hundredths a (negsuc b) = pos 0

abbrev hundredths : Numbers ℤ
hundredths = record {
  nought = pos 0;
  one = pos 100;
  half = pos 50;
  hundred = pos 10000;
  material_change = pos 5;
  less = ltb_ℤ;
  less_eq = leb_ℤ;
  same = eqb_ℤ;
  negate = negated;
  plus = ◌+ℤ◌;
  minus = ◌-ℤ◌;
  times = times_hundredths;
  over = over_hundredths;
  of_count = λ n. pos (n * 100);
  to_int = λ f. f;
}

-- The statement refers to the concept by a text that is cut as a whole.
abbrev cut_at : String → String → Option (String × String)
cut_at s part =
    if str_eq s "{{c:calls}}" && str_eq part "{{c:"
    then some ("", "calls}}")
    else if str_eq s "calls}}" && str_eq part "}}"
    then some ("calls", "")
    else none

abbrev plain : Strings
plain = record {
  cut = cut_at;
  trim = λ s. s;
  lower = λ s. s;
  replace_all = λ s old new. new;
  sort = λ xs. xs;
  number = λ n. "1";
  quote = λ s. s;
}

abbrev calls_per_year : Probe ℤ
calls_per_year = record {
  name = "calls";
  asks = "Does the city take fewer calls?";
  concept = "calls";
  period_column = "opened";
  sql = "{{c:calls}}";
  unit = "calls";
  per = "";
  scale = pos 0;
  measures_absence_of = [];
  settles_after = pos 0;
  supports = down;
  rise_means = "more";
  fall_means = "fewer";
  caveats = [];
}

abbrev fewer_calls : Investigation ℤ
fewer_calls = record {
  name = "fewer-calls";
  title = "Fewer calls";
  claim = "The city takes fewer calls.";
  mode = "calls";
  terms = "calls" ∷ "phone" ∷ [];
  probes = calls_per_year ∷ [];
  caveats = "Only calls that were recorded." ∷ [];
}

abbrev springfield : Binding
springfield = record {
  portal = "data.springfield.gov";
  city = "Springfield, IL";
  concepts = ("calls", record { id = "aaaa-bbbb"; table = "calls"; columns = [] }) ∷ [];
  notes = [];
  population = pos 0;
}

abbrev calls_mode : Mode
calls_mode = record {
  name = "calls";
  concepts = record { name = "calls"; required = "opened" ∷ []; optional = [] } ∷ [];
  queries = [];
}

abbrev year_of : ℕ → ℕ → Point ℤ
year_of year count = record {
  period = pos year;
  value = pos (count * 100);
  denominator = pos 0;
  indicator = pos (count * 100);
  complete = false;
}

-- 2024 is not over.
abbrev five_years : List (Point ℤ)
five_years =
    year_of 2020 40 ∷ year_of 2021 44 ∷ year_of 2022 36 ∷ year_of 2023 20 ∷ year_of 2024 3 ∷ []

abbrev to_2023 : Coverage → Coverage
to_2023 cov = record cov {
  known = true;
  first_complete = pos 2020;
  last_complete = pos 2023;
  partial = pos 2024;
}

abbrev asks : Asks ℤ
asks = record {
  equal_fold = str_eq;
  less = λ a b. false;
  of_int = λ n. n;
  find_mode = λ name. some calls_mode;
  run_probe = λ pp. ok five_years;
  measure_extent = λ view column. to_2023;
  assess_evidence = λ targets. none;
  have = none;
  year = pos 2024;
  fix_command = λ plan ids. "csq sync";
}

abbrev written : String → List (Arg ℤ) → String
written format args = format

abbrev asked : String
asked = "is the number of calls falling?"

run-Concludes_example :
    Concludes hundredths asks.run_probe
      (run hundredths plain written asks (fewer_calls ∷ []) [] asked none "" "p" (some springfield))
run-Concludes_example =
    run-Concludes hundredths plain written asks (fewer_calls ∷ []) [] asked none "" "p"
      (some springfield)

both : (s part t u : String) → (str_eq s t && str_eq part u) ≡ true → (s ≡ t) × (part ≡ u)
both s part t u h = ((eq_iff s t).0 (ground (arith, h)), (eq_iff part u).0 (ground (arith, h)))

-- One of the cuts above.
one_cut :
    (s part a b t u c d : String)
    → (str_eq s t && str_eq part u) ≡ true
    → ◌≡◌ {A = Option (String × String)} (some (c, d)) (some (a, b))
    → len c + len u + len d ≡ len t
    → len a + len part + len b ≡ len s
one_cut s part a b t u c d k h l =
    let e = both s part t u k in
    let x : c ≡ a = cc in let y : d ≡ b = cc in rw (e.0, e.1, ← x, ← y) l

plain-IsCut : IsCut plain
plain-IsCut s part a b h = elim (Bool-cases (str_eq s "{{c:calls}}" && str_eq part "{{c:")) [
  | inl y ↦ one_cut s part a b "{{c:calls}}" "{{c:" "" "calls}}" y (rw y at h) refl
  | inr z ↦ elim (Bool-cases (str_eq s "calls}}" && str_eq part "}}")) [
    | inl y ↦ one_cut s part a b "calls}}" "}}" "calls" "" y (rw (z, y) at h) refl
    | inr w ↦ absurd (let k = rw (z, w) at h in cc)
  ]
]

make_plan-IsPlan_example :
    IsPlan plain str_eq fewer_calls calls_mode springfield "p" none
      (make_plan plain str_eq fewer_calls (some calls_mode) (some springfield) "p" none)
make_plan-IsPlan_example =
    make_plan-IsPlan plain str_eq plain-IsCut fewer_calls calls_mode springfield "p" none

more_asym : (a b : Candidate ℤ) → has_more hundredths a b ≡ true → has_more hundredths b a ≡ false
more_asym a b h = ground arith

more_trans :
    (a b c : Candidate ℤ)
    → has_more hundredths b a ≡ false
    → has_more hundredths c b ≡ false
    → has_more hundredths c a ≡ false
more_trans a b c h k = ground arith

more_order : IsOrder (has_more hundredths)
more_order = record { asym = more_asym; trans = more_trans }

more_total : IsTotal hundredths
more_total a b h k = ground arith

discover-Routed_example :
    (sorted : List (Candidate ℤ)) × Perm sorted
      (candidates hundredths plain [] (λ n. n) (fewer_calls ∷ []) asked)
    × IsSorted (has_more hundredths) sorted
    × Routed hundredths plain []
        (fewer_calls ∷ [])
        sorted
        (discover hundredths plain [] (λ n. n) (fewer_calls ∷ []) asked)
discover-Routed_example =
    discover-Routed hundredths plain [] more_order more_total (λ n. n) (fewer_calls ∷ []) asked

-- A time is a year and a day of it.
abbrev Day : Type 0
Day = ℤ × ℕ

abbrev is_later : Day → Day → Bool
is_later a b = ltb_ℤ b.0 a.0 || (eqb_ℤ b.0 a.0 && ltb b.1 a.1)

abbrev days : Times Day
days = record {
  year = λ t. t.0;
  date = λ t y m d. (y, m * 31 + d);
  is_after = is_later;
  is_before = λ a b. is_later b a;
  is_zero = λ t. false;
  format = λ layout t. layout;
  parse = λ layout s. none;
}

days_after_earlier : (t : Day) (y : ℤ) → ltb_ℤ y t.0 ≡ true → is_later t (y, 32) ≡ true
days_after_earlier t y h = ground arith

days_after_later : (t : Day) (y : ℤ) → ltb_ℤ t.0 y ≡ true → is_later t (y, 32) ≡ false
days_after_later t y h = ground arith

days_before_earlier : (t : Day) (y : ℤ) → ltb_ℤ y t.0 ≡ true → is_later (y, 403) t ≡ false
days_before_earlier t y h = ground arith

days_before_later : (t : Day) (y : ℤ) → ltb_ℤ t.0 y ≡ true → is_later (y, 403) t ≡ true
days_before_later t y h = ground arith

days_calendar : IsCalendar days
days_calendar = record {
  after_earlier = days_after_earlier;
  after_later = days_after_later;
  before_earlier = days_before_earlier;
  before_later = days_before_later;
}

-- From July 2019 to March 2024.
spanned_iff_example :
    let cov = spanned days (pos 2019, 218) (pos 2024, 95) (unmeasured "calls" "calls" "opened") in
    ((cov.first_complete ≤ℤ pos 2020) × (pos 2020 ≤ℤ cov.last_complete))
    ↔ Spans days (pos 2019, 218) (pos 2024, 95) (pos 2020)
spanned_iff_example =
    spanned_iff days days_calendar (pos 2019, 218) (pos 2024, 95)
      (unmeasured "calls" "calls" "opened") (pos 2020)
