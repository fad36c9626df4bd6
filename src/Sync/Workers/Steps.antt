-- ===== src/Sync/Workers/Steps.antt =====
-- That a run of the goroutines gets somewhere: how many steps are left, and that one can be taken.
use civic_soda_quack.Prelude.{
  ℕ, suc, ◌+◌, ◌*◌, ◌≡◌, ◌<◌, ◌≤◌, refl, ap, ◌⊎◌, inl, inr, Bool, ◌&&◌, List, [], ◌∷◌, ◌++◌, length,
  arith, length-append, Bool-cases,
}
use civic_soda_quack.Sync.Incremental.{Status, done, failed, aborted}
use civic_soda_quack.Sync.Workers.{
  Group, planned, counted, Work, launch, skip, enter, settle, Runs, begin, work, interrupt,
}

module _ {A : Type 0} where
  -- The steps that are left.
  abbrev pub left : Group A → ℕ
  left g = 3 * length g.waiting + (2 * length g.started + length g.syncing)

  -- Every target was counted.
  abbrev pub Finished : Group A → Type 0
  Finished g = (g.waiting ≡ []) × (g.started ≡ []) × (g.syncing ≡ [])

  nothing : (xs : List A) → length xs ≡ 0 → xs ≡ []
  nothing [] h = refl
  nothing (x ∷ xs) h = absurd (omega arith)

  Finished-left : (g : Group A) → left g ≡ 0 → Finished g
  Finished-left g z = (
    nothing g.waiting (omega arith),
    nothing g.started (omega arith),
    nothing g.syncing (omega arith),
  )

  pub length_split :
      (xs before after : List A) (t : A)
      → xs ≡ before ++ (t ∷ after)
      → length xs ≡ suc (length (before ++ after))
  length_split xs before after t e =
      omega (arith, ap length e, length-append before (t ∷ after), length-append before after)

  left-counted :
      (abort : Bool) (t : A) (s : Status) (g : Group A) → left (counted abort t s g) ≡ left g
  unfolding counted
  left-counted abort t done g = refl
  left-counted abort t failed g = refl
  left-counted abort t aborted g = refl

  module _ (limit : ℕ) (abort : Bool) where
    work-left : {g h : Group A} → Work limit abort g h → left h < left g
    work-left (launch t ts e room) = omega (arith, ap length e)
    work-left {g} (skip before after t e c) =
        rw (left-counted abort t aborted (record g { started = before ++ after }))
          (omega (arith, length_split g.started before after t e))
    work-left {g} (enter before after t e c) =
        omega (arith, length_split g.started before after t e)
    work-left {g} (settle before after t s e) =
        rw (left-counted abort t s (record g { syncing = before ++ after }))
          (omega (arith, length_split g.syncing before after t e))

    Runs-left : {g h : Group A} {n : ℕ} → Runs limit abort g n h → n + left h ≤ left g
    Runs-left begin = omega arith
    Runs-left (interrupt r) = Runs-left r
    Runs-left (work r w) = omega (arith, Runs-left r, work-left w)

    by_lists :
        (g : Group A)
        → 0 < limit
        → (ws ss rs : List A) → g.waiting ≡ ws
        → g.started ≡ ss
        → g.syncing ≡ rs
        → (left g ≡ 0) ⊎ ((h : Group A) × Work limit abort g h)
    by_lists g room ws ss (t ∷ rs) ew es er = inr (_, settle [] rs t done er)
    by_lists g room ws (t ∷ ss) [] ew es er = elim (Bool-cases (g.cancelled && abort)) [
      | inl y ↦ inr (_, skip [] ss t es y)
      | inr n ↦ inr (_, enter [] ss t es n)
    ]
    by_lists g room (t ∷ ws) [] [] ew es er =
        inr (_, launch t ws ew (omega (arith, ap length es, ap length er)))
    by_lists g room [] [] [] ew es er =
        inl (omega (arith, ap length ew, ap length es, ap length er))

    -- Some goroutine can move on, or a new one be started.
    next_step : (g : Group A) → 0 < limit → (left g ≡ 0) ⊎ ((h : Group A) × Work limit abort g h)
    next_step g h = by_lists g h g.waiting g.started g.syncing refl refl refl

    -- With at least one worker allowed, a run has at most three steps for each target, and after
    -- any number of them every target was counted or some worker can take another step.
    pub run_ends :
        (ts : List A) (n : ℕ) (g : Group A)
        → 0 < limit
        → Runs limit abort (planned ts) n g
        → (n ≤ 3 * length ts) × (Finished g ⊎ ((h : Group A) × Work limit abort g h))
    run_ends ts n g room r = elim (next_step g room) [
      | inl z ↦ (omega (arith, Runs-left r), inl (Finished-left g z))
      | inr w ↦ (omega (arith, Runs-left r), inr w)
    ]
