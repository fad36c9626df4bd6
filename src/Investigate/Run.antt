-- ===== src/Investigate/Run.antt =====
-- An investigation from the question to the report: internal/investigate/run.go. What it asks of other
-- packages and of the database is in `Asks`; the name of a snapshot is left out of a report.
pub mod Counted
use civic_soda_quack.Prelude.{
  ℕ, zero, suc, String, str_append, Bool, true, false, ◌&&◌, ◌||◌, not, Option, none, some, List,
  [], ◌∷◌, ◌++◌, Result, ok, err, str_eq, if◌then◌else◌,
}
use civic_soda_quack.Prelude.Int.{ℤ}
use civic_soda_quack.Modes.{Binding, Mode, Strings}
use civic_soda_quack.Confidence.Targets.{EvidenceTarget}
use civic_soda_quack.Investigate.{
  Numbers, Arg, Investigation, PlannedProbe, Plan, Point, Coverage, Evidence, Validation, Analysis,
}
use civic_soda_quack.Investigate.Measure.{analyze}
use civic_soda_quack.Investigate.Challenges.{challenge}
use civic_soda_quack.Investigate.Explain.{Report, finalize, add_caveats}
use civic_soda_quack.Investigate.Plans.{make_plan}
use civic_soda_quack.Investigate.Plans.Needs.{Readiness, assess}
use civic_soda_quack.Investigate.Validate.{validate}
use civic_soda_quack.Investigate.Discover.{Discovery, DiscoverError, discover, discover_named}

pub data RunError (F : Type 0) : Type 0 where
  not_discovered : DiscoverError F → RunError F
  no_binding : String → RunError F
  wrong_city : String → String → String → RunError F
  no_plan : String → RunError F

pub record Asks (F : Type 0) : Type 0 where
  pub equal_fold : String → String → Bool
  pub less : String → String → Bool
  pub of_int : ℤ → F
  pub find_mode : String → Option Mode
  pub run_probe : PlannedProbe F → Result String (List (Point F))
  pub measure_extent : String → String → Coverage → Coverage
  pub assess_evidence : List EvidenceTarget → Option (Evidence F)
  pub have : Option (String → Bool)
  pub year : ℤ
  pub fix_command : Plan F → List String → String

module _ (st : Strings) where
  abbrev pub head_is : String → Option (String × String) → Bool
  head_is a none = false
  head_is a (some (city, rest)) = str_eq a (st.trim city)

  -- `sameCity`
  pub same_city : String → String → Bool
  same_city asked bound =
      let a = st.lower (st.trim asked) in
      let bl = st.lower (st.trim bound) in str_eq a bl || head_is a (st.cut bl ",")

module _ {F : Type 0} (nm : Numbers F) (st : Strings) (sprintf : String → List (Arg F) → String)
    (asks : Asks F) where
  -- The steps behind the plan.
  abbrev pub explained : Investigation F → Mode → Binding → Validation F → Plan F → Report F
  explained inv m b v plan =
      let r = finalize nm st.trim sprintf plan v (
        challenge nm sprintf v.coverage v.evidence plan.probes
          (analyze nm sprintf asks.run_probe v.coverage plan.probes)) in
      record r { caveats = add_caveats st.trim (add_caveats st.trim r.caveats inv.caveats) b.notes }

  pub concluded : Investigation F → String → Mode → Binding → Plan F → Readiness × Report F
  concluded inv alias m b plan = (
    assess st asks.fix_command plan inv b,
    explained inv m b
        (validate sprintf asks.less asks.measure_extent asks.assess_evidence asks.year m alias b
          plan)
        plan,
  )

  abbrev pub with_plan :
      Investigation F
      → String
      → Option Mode
      → Binding
      → Result String (Plan F)
      → Result (RunError F) (Readiness × Report F)
  with_plan inv alias m b (err e) = err (no_plan e)
  with_plan inv alias none b (ok plan) = err (no_plan "")
  with_plan inv alias (some m) b (ok plan) = ok (concluded inv alias m b plan)

  -- From an investigation on.
  pub investigate :
      Discovery F → String → Option Binding → Result (RunError F) (Readiness × Report F)
  unfolding concluded same_city
  investigate d alias none = err (no_binding d.investigation.name)
  investigate d alias (some b) =
      if not (str_eq d.place "") && not (same_city st d.place b.city)
      then err (wrong_city d.place b.city b.portal)
      else with_plan d.investigation alias (asks.find_mode d.investigation.mode) b (
          make_plan st asks.equal_fold d.investigation (asks.find_mode d.investigation.mode)
            (some b) alias asks.have)

  abbrev pub routed :
      Result (DiscoverError F) (Discovery F)
      → String
      → Option Binding
      → Result (RunError F) (Readiness × Report F)
  routed (err e) alias b = err (not_discovered e)
  routed (ok d) alias b = investigate d alias b

  -- How the options choose the investigation.
  abbrev pub resolve :
      List (Investigation F)
      → List String
      → String
      → Option (Discovery F)
      → String
      → Result (DiscoverError F) (Discovery F)
  resolve registry cities question (some d) named = ok d
  resolve registry cities question none named =
      if str_eq named ""
      then discover nm st cities asks.of_int registry question
      else discover_named nm st cities registry named question

  -- `Run`
  pub run :
      List (Investigation F)
      → List String
      → String
      → Option (Discovery F)
      → String
      → String
      → Option Binding
      → Result (RunError F) (Readiness × Report F)
  unfolding investigate
  run registry cities question given named alias b =
      routed (resolve registry cities question given named) alias b
