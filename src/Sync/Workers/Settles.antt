-- ===== src/Sync/Workers/Settles.antt =====
-- That every target is settled once, and what the counters and the verdict say of it.
use mathlib.Core.List.{Perm}
use mathlib.Core.List.Perm
use civic_soda_quack.Prelude.{
  ℕ, suc, ◌+◌, ◌≤◌, ◌≡◌, ◌↔◌, refl, ap, subst, Bool, none, List, ◌∷◌, ◌++◌, map, All, length, arith,
  length-append, append-nil,
}
use civic_soda_quack.Sync.Incremental.{Status, done, failed, aborted}
use civic_soda_quack.Sync.Workers.{
  Group, planned, active, counted, verdict, Work, launch, skip, enter, settle, Runs, begin, work,
  interrupt,
}
use civic_soda_quack.Sync.Workers.Steps.{Finished}
use civic_soda_quack.Sync.Workers.Places.{
  is_done, is_failed, is_aborted, everywhere, with_status, perm_launch, perm_enter, perm_skip,
  perm_settle, statuses_sum, All-done,
}

module _ {A : Type 0} where
  abbrev pub targets_settled : Group A → List A
  targets_settled g = map (λ p. p.0) g.settled

  -- What holds of the group whenever it is looked at.
  pub record Accounts (ts : List A) (limit : ℕ) (g : Group A) : Type 0 where
    pub each_once : Perm (everywhere (targets_settled g) g.syncing g.started g.waiting) ts
    pub oks : g.ok_count ≡ with_status is_done g.settled
    pub fails : g.failed_count ≡ with_status is_failed g.settled
    pub aborts : g.aborted_count ≡ with_status is_aborted g.settled
    pub within : active g ≤ limit
    pub none_lost :
        length g.settled + (length g.syncing + (length g.started + length g.waiting)) ≡ length ts

  counts :
      (ts : List A) (limit : ℕ) (abort : Bool) (t : A) (s : Status) (g : Group A)
      → Perm (everywhere (t ∷ targets_settled g) g.syncing g.started g.waiting) ts
      → g.ok_count ≡ with_status is_done g.settled
      → g.failed_count ≡ with_status is_failed g.settled
      → g.aborted_count ≡ with_status is_aborted g.settled
      → active g ≤ limit
      → suc (length g.settled) + (length g.syncing + (length g.started + length g.waiting))
        ≡ length ts
      → Accounts ts limit (counted abort t s g)
  unfolding counted
  counts ts limit abort t done g p o f a w l = record {
    each_once = p;
    oks = omega arith;
    fails = omega arith;
    aborts = omega arith;
    within = w;
    none_lost = omega arith;
  }
  counts ts limit abort t failed g p o f a w l = record {
    each_once = p;
    oks = omega arith;
    fails = omega arith;
    aborts = omega arith;
    within = w;
    none_lost = omega arith;
  }
  counts ts limit abort t aborted g p o f a w l = record {
    each_once = p;
    oks = omega arith;
    fails = omega arith;
    aborts = omega arith;
    within = w;
    none_lost = omega arith;
  }

  module _ (ts : List A) (limit : ℕ) (abort : Bool) where
    moved : (xs ys zs : List A) → Perm xs zs → xs ≡ ys → Perm ys zs
    moved xs ys zs p e = subst (λ l. Perm l zs) e p

    work-Accounts :
        {g h : Group A} → Work limit abort g h → Accounts ts limit g → Accounts ts limit h
    work-Accounts {g} (launch t rest e room) a = record {
      oks = a.oks;
      fails = a.fails;
      aborts = a.aborts;
      each_once = Perm.trans (perm_launch (targets_settled g) g.syncing g.started rest t) (
          subst (λ l. Perm (everywhere (targets_settled g) g.syncing g.started l) ts) e
            a.each_once);
      within = omega arith;
      none_lost = omega (arith, a.none_lost, ap length e);
    }
    work-Accounts {g} (skip before after t e c) a =
        counts ts limit abort t aborted (record g { started = before ++ after })
          (Perm.trans (perm_skip (targets_settled g) g.syncing before after g.waiting t) (
            subst (λ l. Perm (everywhere (targets_settled g) g.syncing l g.waiting) ts) e
              a.each_once))
          a.oks a.fails a.aborts
          (omega (
            arith,
            a.within,
            ap length e,
            length-append before (t ∷ after),
            length-append before after,
          ))
          (omega (
            arith,
            a.none_lost,
            ap length e,
            length-append before (t ∷ after),
            length-append before after,
          ))
    work-Accounts {g} (enter before after t e c) a = record {
      oks = a.oks;
      fails = a.fails;
      aborts = a.aborts;
      each_once = Perm.trans (perm_enter (targets_settled g) g.syncing before after g.waiting t) (
          subst (λ l. Perm (everywhere (targets_settled g) g.syncing l g.waiting) ts) e
            a.each_once);
      within = omega (
        arith,
        a.within,
        ap length e,
        length-append before (t ∷ after),
        length-append before after,
      );
      none_lost = omega (
        arith,
        a.none_lost,
        ap length e,
        length-append before (t ∷ after),
        length-append before after,
      );
    }
    work-Accounts {g} (settle before after t s e) a =
        counts ts limit abort t s (record g { syncing = before ++ after })
          (Perm.trans (perm_settle (targets_settled g) before after g.started g.waiting t) (
            subst (λ l. Perm (everywhere (targets_settled g) l g.started g.waiting) ts) e
              a.each_once))
          a.oks a.fails a.aborts
          (omega (
            arith,
            a.within,
            ap length e,
            length-append before (t ∷ after),
            length-append before after,
          ))
          (omega (
            arith,
            a.none_lost,
            ap length e,
            length-append before (t ∷ after),
            length-append before after,
          ))

    -- At any time of a run every planned target is in exactly one place, each counter is the
    -- number of targets counted with its status, and no more workers are active than the limit
    -- allows.
    pub run-Accounts :
        (n : ℕ) (g : Group A) → Runs limit abort (planned ts) n g → Accounts ts limit g
    run-Accounts n g begin = record {
      each_once = Perm.refl ts;
      oks = refl;
      fails = refl;
      aborts = refl;
      within = omega arith;
      none_lost = omega arith;
    }
    run-Accounts n g (interrupt r) =
        let a = run-Accounts _ _ r in
        record {
          each_once = a.each_once;
          oks = a.oks;
          fails = a.fails;
          aborts = a.aborts;
          within = a.within;
          none_lost = a.none_lost;
        }
    run-Accounts n g (work r w) = work-Accounts w (run-Accounts _ _ r)

  verdict-none : (g : Group A) → (verdict g ≡ none) ↔ (g.failed_count + g.aborted_count ≡ 0)
  unfolding verdict
  verdict-none g = ground arith

  -- When every target of a run has left the workers, whatever the order of their steps was, the
  -- counted targets are the planned ones, each once; the three counters add up to their number;
  -- and no error is returned exactly if every one of them was counted as done.
  pub run_settles :
      (limit : ℕ) (abort : Bool) (ts : List A) (n : ℕ) (g : Group A)
      → Runs limit abort (planned ts) n g
      → Finished g
      → Perm (targets_settled g) ts
        × (g.ok_count + (g.failed_count + g.aborted_count) ≡ length ts)
        × ((verdict g ≡ none) ↔ All (λ p. p.1 ≡ done) g.settled)
  run_settles limit abort ts n g r (ew, es, ey) =
      let a = run-Accounts ts limit abort n g r in
      let (none_failed, fine) = verdict-none g in
      let (good, back) = All-done g.settled in
      (
        subst (λ l. Perm l ts) (rw (ew, es, ey) (append-nil (targets_settled g))) a.each_once,
        omega (
          arith,
          a.oks,
          a.fails,
          a.aborts,
          a.none_lost,
          statuses_sum g.settled,
          ap length ew,
          ap length es,
          ap length ey,
        ),
        (
          λ h. good (omega (arith, none_failed h, a.fails, a.aborts)),
          λ h. fine (omega (arith, back h, a.fails, a.aborts)),
        ),
      )
