-- ===== src/Sync/Plan/Forces.antt =====
-- What a full refresh comes to.
mod Examples
use civic_soda_quack.Prelude.{
  ℕ, ◌≡◌, ◌≢◌, refl, inl, inr, String, Bool, true, false, ◌||◌, Option, List, [], ◌∷◌, Result, ok,
  err, ◌>>◌, eq_refl, str_eq, arith, if◌then◌else◌, Bool-cases,
}
use civic_soda_quack.Sync.{Target}
use civic_soda_quack.Sync.Selectors.{member}
use civic_soda_quack.Sync.Incremental.{Calls, DatasetState}
use civic_soda_quack.Sync.Incremental.Choice.{should_bootstrap}
use civic_soda_quack.Sync.Incremental.Choice.Mode.{should_bootstrap-full_replace}
use civic_soda_quack.Sync.Plan.{
  PlanError, exclusive, not_resolved, forced, target_ids, check_refresh, force_in, force_all, plan,
}

module _ {F T E W : Type 0} (calls : Calls F T E W) (run_id : String) (fuel : ℕ) where
  -- A target that is forced is loaded in full, whatever is stored; any other is as it was.
  abbrev pub Treated : Bool → Target → Target → Type 0
  Treated true t t' =
      (t'.id ≡ t.id)
      × ((state : Option (DatasetState T)) (w : W)
          → should_bootstrap calls run_id fuel t' state w ≡ ok true)
  Treated false t t' = t' ≡ t

  abbrev pub AllTreated : (String → Bool) → List Target → List Target → Type 0
  AllTreated named [] [] = Unit
  AllTreated named (t ∷ ts) (t' ∷ ts') = Treated (named t.id) t t' × AllTreated named ts ts'
  AllTreated named _ _ = ⊥

  -- What each answer means.
  abbrev pub Plans : Bool → List String → List Target → Result PlanError (List Target) → Type 0
  Plans all ids ts (ok ts') = AllTreated (λ x. all || member x ids) ts ts'
  Plans all ids ts (err exclusive) = (all ≡ true) × (ids ≢ [])
  Plans all ids ts (err (not_resolved id)) =
      (member id ids ≡ true) × (member id (target_ids ts) ≡ false)

  forced-Treated : (t : Target) → Treated true t (forced t)
  unfolding forced
  forced-Treated t =
      (refl, λ state w. should_bootstrap-full_replace calls run_id fuel (forced t) state w refl)

  force_all-AllTreated : (ts : List Target) → AllTreated (λ x. true) ts (force_all ts)
  unfolding force_all
  force_all-AllTreated [] = tt
  force_all-AllTreated (t ∷ ts) = (forced-Treated t, force_all-AllTreated ts)

  same-AllTreated : (ts : List Target) → AllTreated (λ x. false) ts ts
  same-AllTreated [] = tt
  same-AllTreated (t ∷ ts) = (refl, same-AllTreated ts)

  if-Treated : (b : Bool) (t : Target) → Treated b t (if b then forced t else t)
  if-Treated true t = forced-Treated t
  if-Treated false t = refl

  force_in-AllTreated :
      (ids : List String) (ts : List Target) → AllTreated (λ x. member x ids) ts (force_in ids ts)
  unfolding force_in
  force_in-AllTreated ids [] = tt
  force_in-AllTreated ids (t ∷ ts) = (if-Treated (member t.id ids) t, force_in-AllTreated ids ts)

  Refused : List String → List String → Result PlanError (Unit {0}) → Type 0
  Refused set ids (ok u) = Unit
  Refused set ids (err exclusive) = ⊥
  Refused set ids (err (not_resolved id)) = (member id ids ≡ true) × (member id set ≡ false)

  Refused-cons :
      (set ids : List String) (y : String) (r : Result PlanError (Unit {0}))
      → Refused set ids r
      → Refused set (y ∷ ids) r
  unfolding Refused
  Refused-cons set ids y (ok u) h = tt
  Refused-cons set ids y (err exclusive) h = h
  Refused-cons set ids y (err (not_resolved id)) (m, n) = (ground arith, n)

  check_refresh-Refused : (set ids : List String) → Refused set ids (check_refresh set ids)
  unfolding Refused check_refresh
  check_refresh-Refused set [] = tt
  check_refresh-Refused set (id ∷ ids) = elim (Bool-cases (member id set)) [
    | inl y ↦ rw y (Refused-cons set ids id (check_refresh set ids) (check_refresh-Refused set ids))
    | inr z ↦ rw z (rw (eq_refl id) refl, z)
  ]

  then-Plans :
      (id : String) (ids : List String) (ts : List Target) (r : Result PlanError (Unit {0}))
      → Refused (target_ids ts) (id ∷ ids) r
      → Plans false (id ∷ ids) ts (r >> ok (force_in (id ∷ ids) ts))
  unfolding Refused
  then-Plans id ids ts (ok u) h = force_in-AllTreated (id ∷ ids) ts
  then-Plans id ids ts (err exclusive) h = absurd h
  then-Plans id ids ts (err (not_resolved x)) h = h

  -- The plan of a full refresh keeps the targets in their order: those that it names, or all where
  -- all are asked for, are loaded in full by the incremental strategy whatever state is stored,
  -- and any other is as it was. It is refused with an id that was named and is not among the
  -- targets, or because all were asked for and some were named.
  pub plan-Plans :
      (all : Bool) (ids : List String) (ts : List Target) → Plans all ids ts (plan all ids ts)
  unfolding plan
  plan-Plans true [] ts = force_all-AllTreated ts
  plan-Plans false [] ts = same-AllTreated ts
  plan-Plans true (id ∷ ids) ts = (refl, λ e. cc)
  plan-Plans false (id ∷ ids) ts =
      then-Plans id ids ts (check_refresh (target_ids ts) (id ∷ ids))
        (check_refresh-Refused (target_ids ts) (id ∷ ids))
