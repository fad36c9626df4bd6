-- ===== src/Sync/Workers/Places.antt =====
-- The targets of a run by where they are, and the counted ones by their status.
use mathlib.Core.List.{Perm, perm_middle}
use mathlib.Core.List.Perm
use civic_soda_quack.Prelude.{ℕ, ◌+◌, ◌≡◌, ◌↔◌, refl, List, [], ◌∷◌, ◌++◌, All, length, arith}
use civic_soda_quack.Sync.Incremental.{Status, done, failed, aborted}

abbrev pub is_done : Status → ℕ
is_done done = 1
is_done failed = 0
is_done aborted = 0

abbrev pub is_failed : Status → ℕ
is_failed done = 0
is_failed failed = 1
is_failed aborted = 0

abbrev pub is_aborted : Status → ℕ
is_aborted done = 0
is_aborted failed = 0
is_aborted aborted = 1

module _ {A : Type 0} where
  -- The targets wherever they are.
  abbrev pub everywhere : List A → List A → List A → List A → List A
  everywhere xs ys ss ws = xs ++ (ys ++ (ss ++ ws))

  -- How many were counted with a status.
  abbrev pub with_status : (Status → ℕ) → List (A × Status) → ℕ
  with_status f [] = 0
  with_status f ((t, s) ∷ ps) = f s + with_status f ps

  pull :
      (before after ws : List A) (t : A)
      → Perm ((before ++ (t ∷ after)) ++ ws) (t ∷ ((before ++ after) ++ ws))
  pull before after ws t = Perm.append_right ws (perm_middle before after)

  pub perm_launch :
      (xs ys ss ws : List A) (t : A)
      → Perm (everywhere xs ys (t ∷ ss) ws) (everywhere xs ys ss (t ∷ ws))
  perm_launch xs ys ss ws t =
      Perm.append_left xs (Perm.append_left ys (Perm.symm (perm_middle ss ws)))

  pub perm_enter :
      (xs ys before after ws : List A) (t : A)
      → Perm
          (everywhere xs (t ∷ ys) (before ++ after) ws)
          (everywhere xs ys (before ++ (t ∷ after)) ws)
  perm_enter xs ys before after ws t =
      Perm.append_left xs
        (Perm.symm (Perm.trans (Perm.append_left ys (pull before after ws t)) (perm_middle ys _)))

  pub perm_skip :
      (xs ys before after ws : List A) (t : A)
      → Perm
          (everywhere (t ∷ xs) ys (before ++ after) ws)
          (everywhere xs ys (before ++ (t ∷ after)) ws)
  perm_skip xs ys before after ws t =
      Perm.trans (Perm.symm (perm_middle xs _)) (perm_enter xs ys before after ws t)

  pub perm_settle :
      (xs before after ss ws : List A) (t : A)
      → Perm
          (everywhere (t ∷ xs) (before ++ after) ss ws)
          (everywhere xs (before ++ (t ∷ after)) ss ws)
  perm_settle xs before after ss ws t =
      Perm.trans (Perm.symm (perm_middle xs _))
        (Perm.append_left xs (Perm.symm (pull before after (ss ++ ws) t)))

  pub statuses_sum :
      (ps : List (A × Status))
      → with_status is_done ps + (with_status is_failed ps + with_status is_aborted ps) ≡ length ps
  statuses_sum [] = refl
  statuses_sum ((t, done) ∷ ps) = omega (arith, statuses_sum ps)
  statuses_sum ((t, failed) ∷ ps) = omega (arith, statuses_sum ps)
  statuses_sum ((t, aborted) ∷ ps) = omega (arith, statuses_sum ps)

  pub All-done :
      (ps : List (A × Status))
      → (with_status is_failed ps + with_status is_aborted ps ≡ 0) ↔ All (λ p. p.1 ≡ done) ps
  All-done [] = (λ h. tt, λ a. refl)
  All-done ((t, done) ∷ ps) =
      let (there, back) = All-done ps in
      (λ h. (refl, there (omega arith)), λ a. omega (arith, back a.1))
  All-done ((t, failed) ∷ ps) = (λ h. absurd (omega arith), λ a. cc a.0)
  All-done ((t, aborted) ∷ ps) = (λ h. absurd (omega arith), λ a. cc a.0)
