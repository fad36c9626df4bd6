-- ===== src/Sync/Workers/Aborts.antt =====
-- How many datasets fail where the first failure is to end the run.
use civic_soda_quack.Prelude.{
  ℕ, suc, ◌+◌, ◌≡◌, ◌≤◌, refl, Bool, true, false, ◌&&◌, ◌||◌, List, ◌++◌, length, arith,
}
use civic_soda_quack.Sync.Incremental.{Status, done, failed, aborted}
use civic_soda_quack.Sync.Workers.{
  Group, planned, active, counted, Work, launch, skip, enter, settle, Runs, begin, work, interrupt,
}
use civic_soda_quack.Sync.Workers.Steps.{length_split}
use civic_soda_quack.Sync.Workers.Settles.{run-Accounts}

-- Nothing has failed before the group is cancelled, and behind that a failure uses up a worker.
abbrev Bounded : ℕ → Bool → ℕ → ℕ → Type 0
Bounded limit true fails syncing = fails + syncing ≤ limit
Bounded limit false fails syncing = fails ≡ 0

Bounded-any : (limit : ℕ) (c : Bool) (f s : ℕ) → Bounded limit c f s → s ≤ limit → f + s ≤ limit
Bounded-any limit true f s b w = b
Bounded-any limit false f s b w = omega arith

Bounded-cancelled : (limit : ℕ) (c : Bool) (f s : ℕ) → f + s ≤ limit → Bounded limit (c || true) f s
Bounded-cancelled limit true f s h = h
Bounded-cancelled limit false f s h = h

Bounded-fewer :
    (limit : ℕ) (c : Bool) (f s r : ℕ) → Bounded limit c f s → r ≤ s → Bounded limit c f r
Bounded-fewer limit true f s r b h = omega arith
Bounded-fewer limit false f s r b h = b

Bounded-entered :
    (limit : ℕ) (c : Bool) (f s r : ℕ)
    → (c && true) ≡ false
    → Bounded limit c f s
    → Bounded limit c f r
Bounded-entered limit true f s r h b = cc
Bounded-entered limit false f s r h b = b

module _ {A : Type 0} where
  abbrev FailsWithin : ℕ → Group A → Type 0
  FailsWithin limit g = Bounded limit g.cancelled g.failed_count (length g.syncing)

  counted_within :
      (limit : ℕ) (t : A) (s : Status) (g : Group A)
      → FailsWithin limit g
      → g.failed_count + suc (length g.syncing) ≤ limit
      → FailsWithin limit (counted true t s g)
  unfolding counted
  counted_within limit t done g b w = b
  counted_within limit t aborted g b w = b
  counted_within limit t failed g b w = Bounded-cancelled limit g.cancelled _ _ (omega arith)

  skipped :
      (limit : ℕ) (t : A) (g : Group A)
      → FailsWithin limit g
      → FailsWithin limit (counted true t aborted g)
  unfolding counted
  skipped limit t g b = b

  module _ (limit : ℕ) where
    work-FailsWithin :
        {g h : Group A}
        → Work limit true g h
        → active g ≤ limit
        → FailsWithin limit g
        → FailsWithin limit h
    work-FailsWithin (launch t ts e room) w b = b
    work-FailsWithin {g} (skip before after t e c) w b =
        skipped limit t (record g { started = before ++ after }) b
    work-FailsWithin {g} (enter before after t e c) w b =
        Bounded-entered limit g.cancelled _ _ _ c b
    work-FailsWithin {g} (settle before after t s e) w b =
        let one_less = length_split g.syncing before after t e in
        counted_within limit t s (record g { syncing = before ++ after })
          (Bounded-fewer limit g.cancelled _ _ _ b (omega arith))
          (omega (
            arith,
            Bounded-any limit g.cancelled g.failed_count (length g.syncing) b (omega arith),
          ))

    run-FailsWithin :
        (ts : List A) (n : ℕ) (g : Group A) → Runs limit true (planned ts) n g → FailsWithin limit g
    run-FailsWithin ts n g begin = refl
    run-FailsWithin ts n g (work r w) =
        work-FailsWithin w (run-Accounts ts limit true _ _ r).within (run-FailsWithin ts _ _ r)
    run-FailsWithin ts n g (interrupt {h = h} r) =
        Bounded-any limit h.cancelled _ _ (run-FailsWithin ts _ _ r)
          (omega (arith, (run-Accounts ts limit true _ _ r).within))

    -- Where a failure is to abort the run, at most as many targets are counted as failed as there
    -- are workers allowed, at any time.
    pub abort_bounds_failures :
        (ts : List A) (n : ℕ) (g : Group A)
        → Runs limit true (planned ts) n g
        → g.failed_count ≤ limit
    abort_bounds_failures ts n g r = omega (
      arith,
      Bounded-any limit g.cancelled g.failed_count (length g.syncing) (run-FailsWithin ts n g r)
          (omega (arith, (run-Accounts ts limit true _ _ r).within)),
    )
