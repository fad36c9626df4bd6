-- ===== src/Portallock/Waits.antt =====
-- How long the lock is waited for, and what comes of it.
use civic_soda_quack.Prelude.{
  ℕ, zero, suc, ◌+◌, ◌*◌, ◌≤◌, ◌≡◌, if◌then◌else◌, refl, sym, ap, inl, inr, Bool, true, false, not,
  none, some, Result, ok, err, ltb, ◌==◌, arith, Bool-cases,
}
use civic_soda_quack.Portallock.{
  Options, cannot_create, cannot_acquire, locked, waited, first_wait, next_wait, Acquired,
  after_retry, retries, after_first, acquire,
}

-- What the clock documents: a sleep takes its time, and a lock attempt takes none back.
pub record Ticks {E W : Type 0} (try_lock : W → Result E Bool × W) (now : W → ℕ) (sleep : ℕ → W → W)
    : Type 0 where
  pub at_sleep : (d : ℕ) (w : W) → now w + d ≤ now (sleep d w)
  pub at_try : (w : W) → now w ≤ now (try_lock w).1

module _ {E W : Type 0} (try_lock : W → Result E Bool × W) (now : W → ℕ) (sleep : ℕ → W → W)
    (ticks : Ticks try_lock now sleep) where
  -- There is an answer. A lock is held unless locking is off; to be locked out at once means that no
  -- wait was asked for, and to give up later that the whole of it has passed.
  abbrev pub Answers : Options → W → Acquired try_lock now sleep → Type 0
  Answers opts w (none, w') = ⊥
  Answers opts w (some (ok lock), w') = lock.held ≡ not opts.no_lock
  Answers opts w (some (err (cannot_create e)), w') = opts.no_lock ≡ false
  Answers opts w (some (err (cannot_acquire e)), w') = opts.no_lock ≡ false
  Answers opts w (some (err locked), w') = opts.lock_wait ≡ 0
  Answers opts w (some (err (waited n)), w') =
      (n ≡ opts.lock_wait) × (now w + opts.lock_wait ≤ now w')

  next_wait_bound : (wait : ℕ) → first_wait ≤ wait → first_wait ≤ next_wait wait
  unfolding next_wait
  next_wait_bound wait h = ground arith

  after_retry-Answers :
      (opts : Options) (w : W) (k : W → Acquired try_lock now sleep) (p : Result E Bool × W)
      → opts.no_lock ≡ false
      → Answers opts w (k p.1)
      → Answers opts w (after_retry try_lock now sleep k p)
  unfolding after_retry
  after_retry-Answers opts w k (err e, w') off h = off
  after_retry-Answers opts w k (ok true, w') off h = rw off refl
  after_retry-Answers opts w k (ok false, w') off h = h

  retries-Answers :
      (fuel deadline wait : ℕ) (opts : Options) (w w' : W)
      → opts.no_lock ≡ false
      → now w + opts.lock_wait ≤ deadline
      → deadline ≤ now w' + fuel * first_wait
      → first_wait ≤ wait
      → Answers opts w (retries try_lock now sleep (suc fuel) deadline opts.lock_wait wait w')
  unfolding retries
  retries-Answers zero deadline wait opts w w' off from enough long =
      elim (Bool-cases (ltb (now w') deadline)) [
        | inl y ↦ absurd (ground arith)
        | inr z ↦ rw z (refl, ground arith)
      ]
  retries-Answers (suc fuel) deadline wait opts w w' off from enough long =
      elim (Bool-cases (ltb (now w') deadline)) [
        | inl y ↦ rw y (
            after_retry-Answers opts w _ (try_lock (sleep wait w')) off (
              retries-Answers fuel deadline (next_wait wait) opts w (try_lock (sleep wait w')).1 off
                from (omega (arith, ticks.at_sleep wait w', ticks.at_try (sleep wait w')))
                (next_wait_bound wait long)))
        | inr z ↦ rw z (refl, ground arith)
      ]

  after_first-Answers :
      (fuel : ℕ) (opts : Options) (w : W) (p : Result E Bool × W)
      → opts.no_lock ≡ false
      → now w ≤ now p.1
      → opts.lock_wait ≤ fuel * first_wait
      → Answers opts w (after_first try_lock now sleep (suc fuel) opts p)
  unfolding after_first
  after_first-Answers fuel opts w (err e, w') off later enough = off
  after_first-Answers fuel opts w (ok true, w') off later enough = rw off refl
  after_first-Answers fuel opts w (ok false, w') off later enough =
      elim (Bool-cases (opts.lock_wait == 0)) [
        | inl y ↦ rw y (ground arith)
        | inr z ↦ rw z (
            retries-Answers fuel (now w' + opts.lock_wait) first_wait opts w w' off (omega arith)
              (omega arith) (omega arith))
      ]

  -- On a clock that a sleep moves on by its time and a lock attempt does not take back, one round
  -- more than the wait has steps of 50 milliseconds is enough for an answer. The lock of a good
  -- answer is held unless locking is off; to be locked out at once means that no wait was asked
  -- for; to give up later means that the whole wait has passed.
  pub acquire-Answers :
      (fuel : ℕ) (opts : Options) (w : W)
      → opts.lock_wait ≤ fuel * first_wait
      → Answers opts w (acquire try_lock now sleep (suc fuel) opts w)
  unfolding acquire
  acquire-Answers fuel opts w enough = go opts.no_lock refl
    where
      go :
          (off : Bool)
          → opts.no_lock ≡ off
          → Answers opts w (
              if off
              then (some (ok (record { held = false })), w)
              else after_first try_lock now sleep (suc fuel) opts (try_lock w))
      go true e = ap not (sym e)
      go false e = after_first-Answers fuel opts w (try_lock w) e (ticks.at_try w) enough
