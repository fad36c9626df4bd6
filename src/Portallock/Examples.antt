-- ===== src/Portallock/Examples.antt =====
-- A lock that another process never gives back, on a world that is the time.
use civic_soda_quack.Prelude.{ℕ, ◌+◌, ◌≡◌, refl, Bool, true, false, Result, ok, arith}
use civic_soda_quack.Portallock.{Options, acquire, release}
use civic_soda_quack.Portallock.Waits.{Ticks, Answers, acquire-Answers}

abbrev taken : ℕ → Result (Unit {0}) Bool × ℕ
taken w = (ok false, w)

abbrev time : ℕ → ℕ
time w = w

abbrev wait_for : ℕ → ℕ → ℕ
wait_for d w = w + d

taken-Ticks : Ticks taken time wait_for
taken-Ticks = record { at_sleep = λ d w. omega arith; at_try = λ w. omega arith }

abbrev patient : Options
patient = record { no_lock = false; lock_wait = 100000000 }

acquire-Answers_example :
    Answers taken time wait_for taken-Ticks patient 0 (acquire taken time wait_for 3 patient 0)
acquire-Answers_example = acquire-Answers taken time wait_for taken-Ticks 2 patient 0 (omega arith)

released_again :
    release {E = Unit {0}}
      (λ w. (ok tt, w + 1))
      (release {E = Unit {0}} (λ w. (ok tt, w + 1)) (record { held = true }) 0).1
      7
    ≡ (ok tt, record { held = false }, 7)
unfolding release
released_again = refl
