-- ===== src/Portallock.antt =====
-- The advisory lock on a portal's database file: internal/portallock/portallock.go. `try_lock` and
-- `unlock` are flock's, times are nanoseconds, and a `LockWait` below 1 is 0. Error texts are left out.
pub mod Waits
pub mod Releases
mod Examples
use civic_soda_quack.Prelude.{
  ℕ, zero, suc, ◌+◌, ◌*◌, ◌/◌, Bool, true, false, Option, none, some, Result, ok, err, ltb, ◌==◌,
  if◌then◌else◌,
}
use civic_soda_quack.Socrata.Duration.{second}

pub record Options : Type 0 where
  pub no_lock : Bool
  pub lock_wait : ℕ

-- `flock` is not nil.
pub record Lock : Type 0 where
  pub held : Bool

pub data LockError (E : Type 0) : Type 0 where
  cannot_create : E → LockError E
  cannot_acquire : E → LockError E
  locked : LockError E
  waited : ℕ → LockError E

abbrev pub first_wait : ℕ
first_wait = 50000000

-- `wait * 3 / 2`, up to a second
pub next_wait : ℕ → ℕ
next_wait wait = if ltb second (wait * 3 / 2) then second else wait * 3 / 2

module _ {E W : Type 0} (try_lock : W → Result E Bool × W) (now : W → ℕ) (sleep : ℕ → W → W) where
  abbrev pub Acquired : Type 0
  Acquired = Option (Result (LockError E) Lock) × W

  after_retry : (W → Acquired) → Result E Bool × W → Acquired
  after_retry k (err e, w) = (some (err (cannot_acquire e)), w)
  after_retry k (ok true, w) = (some (ok (record { held = true })), w)
  after_retry k (ok false, w) = k w

  -- The loop up to the deadline; `none` is for want of fuel.
  retries : ℕ → ℕ → ℕ → ℕ → W → Acquired
  retries zero deadline limit wait w = (none, w)
  retries (suc fuel) deadline limit wait w =
      if ltb (now w) deadline
      then after_retry (retries fuel deadline limit (next_wait wait)) (try_lock (sleep wait w))
      else (some (err (waited limit)), w)

  after_first : ℕ → Options → Result E Bool × W → Acquired
  after_first fuel opts (err e, w) = (some (err (cannot_create e)), w)
  after_first fuel opts (ok true, w) = (some (ok (record { held = true })), w)
  after_first fuel opts (ok false, w) =
      if opts.lock_wait == 0
      then (some (err locked), w)
      else retries fuel (now w + opts.lock_wait) opts.lock_wait first_wait w

  -- `Acquire`
  pub acquire : ℕ → Options → W → Acquired
  acquire fuel opts w =
      if opts.no_lock
      then (some (ok (record { held = false })), w)
      else after_first fuel opts (try_lock w)

-- `Release`; the lock that it leaves holds no file, also where `Unlock` fails.
pub release :
    {E W : Type 0} → (W → Result E (Unit {0}) × W) → Lock → W → Result E (Unit {0}) × Lock × W
release unlock lock w =
    if lock.held
    then (let (result, w') = unlock w in (result, record { held = false }, w'))
    else (ok tt, lock, w)
