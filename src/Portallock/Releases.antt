-- ===== src/Portallock/Releases.antt =====
-- Giving the lock back more than once.
use civic_soda_quack.Prelude.{◌≡◌, refl, inl, inr, Result, ok, Bool-cases}
use civic_soda_quack.Portallock.{Lock, release}

-- After one release of a lock, with or without an error, every further one does nothing and
-- reports no error.
release_twice :
    {E W : Type 0} (unlock : W → Result E (Unit {0}) × W) (lock : Lock) (w later : W)
    → release unlock (release unlock lock w).1 later ≡ (ok tt, (release unlock lock w).1, later)
unfolding release
release_twice unlock lock w later = elim (Bool-cases lock.held) [
  | inl y ↦ rw y refl
  | inr z ↦ rw z refl
]
