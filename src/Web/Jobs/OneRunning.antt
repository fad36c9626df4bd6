-- ===== src/Web/Jobs/OneRunning.antt =====
-- That one download runs at a time, and that the manager shows it.
use civic_soda_quack.Prelude.{
  ℕ, zero, suc, ◌≡◌, refl, subst, ◌⊎◌, inl, inr, String, Bool, true, false, Option, none, some,
  List, [], ◌∷◌, ◌++◌, All, Result, ok, err, Bool-cases,
}
use civic_soda_quack.Web.Jobs.{
  Job, is_running, dataset_start, dataset_progress, dataset_done, finish_job, current_running,
  start_sync, run_end, run_sync, Happens, start, begins, progresses, settles, ends, History,
  none_yet, next,
}

abbrev pub has_ended : {A : Type 0} → Option A → Bool
has_ended none = false
has_ended (some a) = true

run_end_over :
    {E : Type 0} (c : Bool) (run : Option E) (n : ℕ) → is_running (run_end c run n).0 ≡ false
unfolding run_end
run_end_over true run n = refl
run_end_over false (some e) n = refl
run_end_over false none zero = refl
run_end_over false none (suc n) = refl

run_sync_over :
    {E : Type 0} (lock open_db close_db refresh : Option E) (c : Bool) (run : Option E) (n : ℕ)
    → is_running (run_sync lock open_db close_db refresh c run n).0 ≡ false
unfolding run_sync
run_sync_over (some e) open_db close_db refresh c run n = refl
run_sync_over none (some e) close_db refresh c run n = refl
run_sync_over none none (some e) refresh c run n = refl
run_sync_over none none none (some e) c none n = refl
run_sync_over none none none (some e) c (some e') n = run_end_over c (some e') n
run_sync_over none none none none c run n = run_end_over c run n

module _ {T : Type 0} where
  -- A job that has its end, and does not run.
  abbrev pub IsOver : Job T → Type 0
  IsOver j = (is_running j.state ≡ false) × (has_ended j.ended ≡ true)

  -- A job that runs, and has no end.
  abbrev pub IsLive : Job T → Type 0
  IsLive j = (is_running j.state ≡ true) × (has_ended j.ended ≡ false)

  -- Only the current job may run.
  abbrev pub OneRunning : List (Job T) → Type 0
  OneRunning [] = Unit
  OneRunning (j ∷ js) = (IsLive j ⊎ IsOver j) × All IsOver js

  not-IsOver :
      (before after : List (Job T)) (j : Job T)
      → is_running j.state ≡ true
      → ¬ All IsOver (before ++ (j ∷ after))
  not-IsOver [] after j h (over, rest) = cc over.0
  not-IsOver (x ∷ before) after j h (over, rest) = not-IsOver before after j h rest

  -- A job that runs is the current one.
  running_first :
      (before after : List (Job T)) (j : Job T)
      → is_running j.state ≡ true
      → OneRunning (before ++ (j ∷ after))
      → (before ≡ []) × IsLive j × All IsOver after
  running_first [] after j h (inl live, over) = (refl, live, over)
  running_first [] after j h (inr ended, over) = cc ended.0
  running_first (x ∷ before) after j h (first, over) = absurd (not-IsOver before after j h over)

  changed :
      (before after : List (Job T)) (j k : Job T) (js : List (Job T))
      → js ≡ before ++ (j ∷ after)
      → is_running j.state ≡ true
      → OneRunning js
      → (IsLive j → IsLive k ⊎ IsOver k)
      → OneRunning (before ++ (k ∷ after))
  changed before after j k js e h one keeps =
      let (none_before, live, over) = running_first before after j h (subst OneRunning e one) in
      rw none_before (keeps live, over)

  not_running :
      (jobs : List (Job T)) → OneRunning jobs → current_running jobs ≡ false → All IsOver jobs
  not_running [] one h = tt
  not_running (j ∷ js) (inl live, over) h = cc live.0
  not_running (j ∷ js) (inr ended, over) h = (ended, over)

  start_sync-OneRunning :
      {E : Type 0} (enabled : Bool) (ids : Result E (List String)) (portal alias mode : String)
      (now : T) (jobs : List (Job T))
      → OneRunning jobs
      → OneRunning (start_sync enabled ids portal alias mode now jobs).1
  unfolding start_sync
  start_sync-OneRunning false ids portal alias mode now jobs one = one
  start_sync-OneRunning true (err e) portal alias mode now jobs one =
      elim (Bool-cases (current_running jobs)) [ inl y ↦ rw y one | inr n ↦ rw n one ]
  start_sync-OneRunning true (ok only) portal alias mode now jobs one =
      elim (Bool-cases (current_running jobs)) [
        | inl y ↦ rw y one
        | inr n ↦ rw n (inl (refl, refl), not_running jobs one n)
      ]

  happens-OneRunning :
      {E : Type 0} {js ks : List (Job T)} → Happens E js ks → OneRunning js → OneRunning ks
  unfolding dataset_start dataset_progress dataset_done finish_job
  happens-OneRunning {js = js} (start enabled ids portal alias mode now) one =
      start_sync-OneRunning enabled ids portal alias mode now js one
  happens-OneRunning {js = js} (begins before after j t e h) one =
      changed before after j (dataset_start t j) js e h one (λ live. inl live)
  happens-OneRunning {js = js} (progresses before after j t rows e h) one =
      changed before after j (dataset_progress t rows j) js e h one (λ live. inl live)
  happens-OneRunning {js = js} (settles before after j t res e h) one =
      changed before after j (dataset_done t res j) js e h one (λ live. inl live)
  happens-OneRunning {js = js} (ends before after j now lock open_db close_db refresh c run n e h)
        one =
      changed before after j (finish_job (run_sync lock open_db close_db refresh c run n).0 now j)
        js e h one (λ live. inr (run_sync_over lock open_db close_db refresh c run n, refl))

  -- However requests to start a download, reports of a running one and ends of one follow each
  -- other, only the newest job, which the manager shows as current, can be running; a job has an
  -- end exactly if it does not run, whatever its calls returned.
  pub History-OneRunning : (E : Type 0) (js : List (Job T)) → History E js → OneRunning js
  History-OneRunning E js none_yet = tt
  History-OneRunning E js (next h s) = happens-OneRunning s (History-OneRunning E _ h)
