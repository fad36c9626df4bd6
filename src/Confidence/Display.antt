-- ===== src/Confidence/Display.antt =====
-- The order in which a report shows its checks.
use civic_soda_quack.Prelude.{
  ℕ, zero, suc, ◌≡◌, ◌≤◌, ◌<◌, ◌⊎◌, refl, sym, ap, ◌∙◌, Bool, true, false, List, [], ◌∷◌, ◌++◌, map,
  arith, Bool-cases, inl, inr, ltb, ◌==◌, if◌then◌else◌,
}
use civic_soda_quack.Confidence.{
  Level, pass, warn, fail, unknown, Floats, Signal, DatasetReport, Report, advisory, level_rank,
  insert_signal, sort_signals, select, problems, confirmations, unmeasured, with_score, gather,
  all_signals, settled_report, finalize, is_unknown, is_pass, is_problem, rank_of,
}

-- Two tests for one number, of which at most one succeeds, may be made in any order.
swap_unequal :
    {L : Type 0} (a b k : ℕ) (f g : L → L) (l : L)
    → a < b
    → (if a == k then f (if b == k then g l else l) else (if b == k then g l else l))
      ≡ (if b == k then g (if a == k then f l else l) else (if a == k then f l else l))
swap_unequal a b k f g l h = ground arith

high_rank :
    (a : Bool) (l : Level)
    → 2 ≤ rank_of a l
    → (is_pass l ≡ false) × (is_unknown l ≡ false) × (is_problem l ≡ true)
high_rank a pass h = absurd (omega arith)
high_rank a unknown h = absurd (omega arith)
high_rank true warn h = (refl, refl, refl)
high_rank false warn h = (refl, refl, refl)
high_rank a fail h = (refl, refl, refl)

mid_rank :
    (a : Bool) (l : Level)
    → 1 ≤ rank_of a l
    → (is_pass l ≡ false) × (((is_unknown l ≡ true) × (is_problem l ≡ false)) ⊎ (2 ≤ rank_of a l))
mid_rank a pass h = absurd (omega arith)
mid_rank a unknown h = (refl, inl (refl, refl))
mid_rank true warn h = (refl, inr (omega arith))
mid_rank false warn h = (refl, inr (omega arith))
mid_rank a fail h = (refl, inr (omega arith))

low_rank :
    (a : Bool) (l : Level)
    → ((is_pass l ≡ true) × (is_unknown l ≡ false) × (is_problem l ≡ false)) ⊎ (1 ≤ rank_of a l)
low_rank a pass = inl (refl, refl, refl)
low_rank a unknown = inr (omega arith)
low_rank true warn = inr (omega arith)
low_rank false warn = inr (omega arith)
low_rank a fail = inr (omega arith)

pass_rank : (a : Bool) (l : Level) → is_pass l ≡ (rank_of a l == 0)
pass_rank a pass = refl
pass_rank a unknown = refl
pass_rank true warn = refl
pass_rank false warn = refl
pass_rank a fail = refl

unknown_rank : (a : Bool) (l : Level) → is_unknown l ≡ (rank_of a l == 1)
unknown_rank a pass = refl
unknown_rank a unknown = refl
unknown_rank true warn = refl
unknown_rank false warn = refl
unknown_rank a fail = refl

module _ {F : Type 0} where
  -- The checks of one rank, in their order.
  abbrev pub at_rank : ℕ → List (Signal F) → List (Signal F)
  at_rank k [] = []
  at_rank k (s ∷ ss) = let rest = at_rank k ss in if level_rank s == k then s ∷ rest else rest

  -- Ranks that only rise, from `k` on.
  abbrev pub IsRising : ℕ → List (Signal F) → Type 0
  IsRising k [] = Unit
  IsRising k (s ∷ ss) = (k ≤ level_rank s) × IsRising (level_rank s) ss

  rank_least : (s : Signal F) (k : ℕ) → k ≤ rank_of (advisory s) s.level → k ≤ level_rank s
  unfolding level_rank
  rank_least s k h = h

  at_least :
      {n : ℕ} (s : Signal F) (k : ℕ) → n ≤ k → k ≤ level_rank s → n ≤ rank_of (advisory s) s.level
  unfolding level_rank
  at_least s k h b = omega arith

  insert-IsRising :
      (s : Signal F) (ts : List (Signal F)) (k : ℕ)
      → k ≤ level_rank s
      → IsRising k ts
      → IsRising k (insert_signal s ts)
  unfolding insert_signal
  insert-IsRising s [] k h r = (h, tt)
  insert-IsRising s (t ∷ ts) k h (b, r) = elim (Bool-cases (ltb (level_rank t) (level_rank s))) [
    | inl y ↦ rw y (b, insert-IsRising s ts (level_rank t) (ground arith) r)
    | inr n ↦ rw n (h, (ground arith, r))
  ]

  sort-IsRising : (ss : List (Signal F)) → IsRising 0 (sort_signals ss)
  unfolding sort_signals
  sort-IsRising [] = tt
  sort-IsRising (s ∷ ss) = insert-IsRising s (sort_signals ss) 0 (omega arith) (sort-IsRising ss)

  at_rank-insert :
      (k : ℕ) (s : Signal F) (ts : List (Signal F))
      → at_rank k (insert_signal s ts) ≡ at_rank k (s ∷ ts)
  unfolding insert_signal
  at_rank-insert k s [] = refl
  at_rank-insert k s (t ∷ ts) = elim (Bool-cases (ltb (level_rank t) (level_rank s))) [
    | inl y ↦
        rw (y, at_rank-insert k s ts)
          (swap_unequal (level_rank t) (level_rank s) k (λ l. t ∷ l) (λ l. s ∷ l) (at_rank k ts)
            (ground arith))
    | inr n ↦ rw n refl
  ]

  at_rank-sort : (k : ℕ) (ss : List (Signal F)) → at_rank k (sort_signals ss) ≡ at_rank k ss
  unfolding sort_signals
  at_rank-sort k [] = refl
  at_rank-sort k (s ∷ ss) =
      at_rank-insert k s (sort_signals ss)
      ∙ ap (λ l. if level_rank s == k then s ∷ l else l) (at_rank-sort k ss)

  -- From a rank of 2 on there are only problems.
  all_problems :
      (ss : List (Signal F)) (k : ℕ)
      → 2 ≤ k
      → IsRising k ss
      → (select is_pass ss ≡ []) × (select is_unknown ss ≡ []) × (select is_problem ss ≡ ss)
  unfolding select
  all_problems [] k h r = (refl, refl, refl)
  all_problems (s ∷ ss) k h (b, r) =
      let (p, u, q) = high_rank (advisory s) s.level (at_least s k h b) in
      let (none_pass, none_unknown, rest) = all_problems ss (level_rank s) (omega arith) r in
      rw (p, u, q) (none_pass, none_unknown, ap (λ l. s ∷ l) rest)

  -- From a rank of 1 on, the unmeasured come first.
  unmeasured_first :
      (ss : List (Signal F)) (k : ℕ)
      → 1 ≤ k
      → IsRising k ss
      → (select is_pass ss ≡ []) × (ss ≡ select is_unknown ss ++ select is_problem ss)
  unfolding select
  unmeasured_first [] k h r = (refl, refl)
  unmeasured_first (s ∷ ss) k h (b, r) =
      let (p, rank) = mid_rank (advisory s) s.level (at_least s k h b) in
      elim rank [
        | inl (u, q) ↦
            let (none_pass, rest) = unmeasured_first ss (level_rank s) (omega arith) r in
            rw (p, u, q) (none_pass, ap (λ l. s ∷ l) rest)
        | inr two ↦
            let (none_pass, none_unknown, rest) =
              all_problems (s ∷ ss) 2 (omega arith) (rank_least s 2 two, r) in
            (none_pass, rw (none_unknown, rest) refl)
      ]

  confirmations_first :
      (ss : List (Signal F)) (k : ℕ)
      → IsRising k ss
      → ss ≡ select is_pass ss ++ (select is_unknown ss ++ select is_problem ss)
  unfolding select
  confirmations_first [] k r = refl
  confirmations_first (s ∷ ss) k (b, r) = elim (low_rank (advisory s) s.level) [
    | inl (p, u, q) ↦ rw (p, u, q) (ap (λ l. s ∷ l) (confirmations_first ss (level_rank s) r))
    | inr one ↦
        let (none_pass, rest) = unmeasured_first (s ∷ ss) 1 (omega arith) (rank_least s 1 one, r) in
        rw none_pass rest
  ]

  select-at_rank :
      (p : Level → Bool) (k : ℕ)
      → ((a : Bool) (l : Level) → p l ≡ (rank_of a l == k))
      → (ss : List (Signal F)) → select p ss ≡ at_rank k ss
  unfolding select level_rank
  select-at_rank p k same [] = refl
  select-at_rank p k same (s ∷ ss) = rw (same (advisory s) s.level, select-at_rank p k same ss) refl

  select-sort :
      (p : Level → Bool) (k : ℕ)
      → ((a : Bool) (l : Level) → p l ≡ (rank_of a l == k))
      → (ss : List (Signal F)) → select p (sort_signals ss) ≡ select p ss
  select-sort p k same ss =
      select-at_rank p k same (sort_signals ss)
      ∙ at_rank-sort k ss
      ∙ sym (select-at_rank p k same ss)

  -- The confirmations, the unmeasured and the problems, by rank and otherwise in their order.
  abbrev pub Displays : ℕ → List (Signal F) → List (Signal F) → Type 0
  Displays k ss shown =
      (shown ≡ confirmations ss ++ (unmeasured ss ++ problems shown))
      × IsRising 0 shown
      × (at_rank k shown ≡ at_rank k ss)

  sort-Displays : (k : ℕ) (ss : List (Signal F)) → Displays k ss (sort_signals ss)
  unfolding confirmations unmeasured problems
  sort-Displays k ss = (
    rw (← select-sort is_pass 0 pass_rank ss, ← select-sort is_unknown 1 unknown_rank ss)
        (confirmations_first (sort_signals ss) 0 (sort-IsRising ss)),
    sort-IsRising ss,
    at_rank-sort k ss,
  )

  module _ (fl : Floats F) where
    all_signals-scores :
        (ds : List (DatasetReport F)) → all_signals fl (map (with_score fl) ds) ≡ all_signals fl ds
    unfolding all_signals with_score
    all_signals-scores [] = refl
    all_signals-scores (d ∷ ds) = ap (λ l. d.signals ++ l) (all_signals-scores ds)

    settled_signals :
        (r : Report F) (ds : List (DatasetReport F)) (out : (F × ℕ) × ℕ)
        → (settled_report fl r ds out).signals ≡ sort_signals (r.signals ++ all_signals fl ds)
    unfolding settled_report
    settled_signals r ds ((product, zero), missing) = refl
    settled_signals r ds ((product, suc measured), missing) = refl

    -- A finished report shows its own checks and those of its datasets as the passed ones in their
    -- order, then the unmeasured ones in their order, then the problems by rising rank; the checks
    -- of any one rank are all there and in their order.
    pub finalize-Displays :
        (r : Report F) (k : ℕ)
        → Displays k (r.signals ++ all_signals fl r.datasets) (finalize fl r).signals
    unfolding finalize
    finalize-Displays r k =
        rw
          (
            settled_signals r (map (with_score fl) r.datasets)
                (gather fl fl.one 0 0 (map (with_score fl) r.datasets)),
            all_signals-scores r.datasets,
          )
          (sort-Displays k (r.signals ++ all_signals fl r.datasets))
