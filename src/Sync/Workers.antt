-- ===== src/Sync/Workers.antt =====
-- The goroutines of `Run` in internal/sync/run.go, under an errgroup with a limit. A target that waits
-- is one for which `Go` was not called yet; a started one runs and has not looked at the context; a
-- syncing one is in `runOne`. `Go` blocks while as many run as the limit allows. A step is one atomic
-- piece of what the loop, a goroutine or the caller's context does.
pub mod Steps
pub mod Places
pub mod Settles
pub mod Aborts
mod Examples
use civic_soda_quack.Prelude.{
  ℕ, zero, suc, ◌+◌, Bool, true, false, ◌||◌, ◌≡◌, ◌<◌, ◌&&◌, List, [], ◌∷◌, ◌++◌, Option, none,
  some, length, ltb, if◌then◌else◌,
}
use civic_soda_quack.Sync.Incremental.{Status, done, failed, aborted}

pub record Group (A : Type 0) : Type 0 where
  pub waiting : List A
  pub started : List A
  pub syncing : List A
  pub settled : List (A × Status)  -- the targets counted, the last first
  pub ok_count : ℕ
  pub failed_count : ℕ
  pub aborted_count : ℕ
  pub cancelled : Bool  -- `gctx.Err() != nil`

pub data RunError : Type 0 where
  datasets_failed : RunError

module _ {A : Type 0} where
  -- Before the loop.
  abbrev pub planned : List A → Group A
  planned ts = record {
    waiting = ts;
    started = [];
    syncing = [];
    settled = [];
    ok_count = 0;
    failed_count = 0;
    aborted_count = 0;
    cancelled = false;
  }

  -- The goroutines that run.
  abbrev pub active : Group A → ℕ
  active g = length g.started + length g.syncing

  -- The end of a goroutine: the counter of its result, and the error that cancels the group.
  pub counted : Bool → A → Status → Group A → Group A
  counted abort t done g = record g { settled = (t, done) ∷ g.settled; ok_count = suc g.ok_count }
  counted abort t aborted g = record g {
    settled = (t, aborted) ∷ g.settled;
    aborted_count = suc g.aborted_count;
  }
  counted abort t failed g = record g {
    settled = (t, failed) ∷ g.settled;
    failed_count = suc g.failed_count;
    cancelled = g.cancelled || abort;
  }

  -- What `Run` returns after `Wait`.
  pub verdict : Group A → Option RunError
  verdict g = if ltb 0 g.failed_count || ltb 0 g.aborted_count then some datasets_failed else none

  -- The steps under a limit; `abort` is `cfg.OnError == "abort"`.
  module _ (limit : ℕ) (abort : Bool) where
    pub data Work (g : Group A) : Group A → Type 0 where
      launch :
          (t : A) (ts : List A)
          → g.waiting ≡ t ∷ ts
          → active g < limit
          → Work g (record g { waiting = ts; started = t ∷ g.started })
      skip :
          (before after : List A) (t : A)
          → g.started ≡ before ++ (t ∷ after)
          → (g.cancelled && abort) ≡ true
          → Work g (counted abort t aborted (record g { started = before ++ after }))
      enter :
          (before after : List A) (t : A)
          → g.started ≡ before ++ (t ∷ after)
          → (g.cancelled && abort) ≡ false
          → Work g (record g { started = before ++ after; syncing = t ∷ g.syncing })
      settle :
          (before after : List A) (t : A) (s : Status)
          → g.syncing ≡ before ++ (t ∷ after)
          → Work g (counted abort t s (record g { syncing = before ++ after }))

    -- Runs with their numbers of steps; the caller may cancel the context between two of them.
    pub data Runs (g : Group A) : ℕ → Group A → Type 0 where
      begin : Runs g 0 g
      work : {n : ℕ} {h k : Group A} → Runs g n h → Work h k → Runs g (suc n) k
      interrupt : {n : ℕ} {h : Group A} → Runs g n h → Runs g n (record h { cancelled = true })
