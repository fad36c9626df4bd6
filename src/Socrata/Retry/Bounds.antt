-- ===== src/Socrata/Retry/Bounds.antt =====
-- How often a page is asked for.
use civic_soda_quack.Prelude.{
  ℕ, zero, suc, ◌+◌, ◌≤◌, ◌≡◌, Option, none, some, inl, inr, arith, Bool-cases, Option-cases,
}
use civic_soda_quack.Socrata.Duration.{
  is_positive, doubled, max_retries, retry_wait, max_retry_wait, backoff_for,
}
use civic_soda_quack.Socrata.Retry.{
  Attempt, page, transient, permanent, Outside, Client, PageError, Rest, attempt_page, sleep_ctx,
  after_check, after_attempt, attempt, after_sleep, one_attempt, attempts, get_page_ctx,
}

-- `count` is the number of requests made: a request adds one, and a sleep none.
pub record Counts {F C E W : Type 0} (o : Outside F C E W) (count : W → ℕ) : Type 0 where
  pub at_request : (w : W) → count (o.request w).1 ≡ count w + 1
  pub at_timer : (d : ℕ) (w : W) → count (o.timer d w).1 ≡ count w

module _ {F C E W : Type 0} (o : Outside F C E W) (client : Client) (count : W → ℕ)
    (counts : Counts o count) where
  -- The rest of the loop makes at most `n` requests.
  Within : ℕ → Rest o client → Type 0
  Within n k =
      (wait : ℕ) (last : Option (PageError E)) (w : W) → count (k wait last w).1 ≤ count w + n

  after_attempt-Within :
      (n : ℕ) (k : Rest o client) (wait : ℕ) (a : Attempt F E) (w : W)
      → Within n k
      → count (after_attempt o client k wait a w).1 ≤ count w + n
  unfolding after_attempt after_check Within
  after_attempt-Within n k wait (page rows) w h = omega arith
  after_attempt-Within n k wait (permanent e) w h = omega arith
  after_attempt-Within n k wait (transient e ra) w h = elim (Option-cases (o.ctx_err w)) [
    | inl e' ↦ rw (e', after_check) (h _ _ w)
    | inr (c, e') ↦ rw (e', after_check) (omega arith)
  ]

  attempt-Within :
      (n : ℕ) (k : Rest o client) (wait : ℕ) (w : W)
      → Within n k
      → count (attempt o client k wait w).1 ≤ count w + suc n
  unfolding attempt
  attempt-Within n k wait w h = omega (
    arith,
    after_attempt-Within n k wait (attempt_page o.decode (o.request w).0) (o.request w).1 h,
    counts.at_request w,
  )

  sleep_ctx-count : (d : ℕ) (w : W) → count (sleep_ctx o client d w).1 ≡ count w
  unfolding sleep_ctx
  sleep_ctx-count d w = elim (Bool-cases (is_positive d)) [
    | inl y ↦ rw y (counts.at_timer d w)
    | inr z ↦ rw z
  ]

  after_sleep-Within :
      (n : ℕ) (k : Rest o client) (wait : ℕ) (stopped : Option C) (w : W)
      → Within n k
      → count (after_sleep o client k wait stopped w).1 ≤ count w + suc n
  unfolding after_sleep
  after_sleep-Within n k wait none w h = attempt-Within n k (doubled wait) w h
  after_sleep-Within n k wait (some c) w h = omega arith

  one_attempt-Within :
      (n i : ℕ) (k : Rest o client) (wait : ℕ) (w : W)
      → Within n k
      → count (one_attempt o client k i wait w).1 ≤ count w + suc n
  unfolding one_attempt
  one_attempt-Within n zero k wait w h = attempt-Within n k wait w h
  one_attempt-Within n (suc i) k wait w h =
      let d = backoff_for (o.draw w) wait (max_retry_wait client.max_retry_wait_set) in
      let (stopped, w') = sleep_ctx o client d w in
      omega (arith, after_sleep-Within n k wait stopped w' h, sleep_ctx-count d w)

  attempts-Within : (left i : ℕ) → Within left (attempts o client left i)
  unfolding attempts Within
  attempts-Within zero i wait last w = omega arith
  attempts-Within (suc left) i wait last w =
      one_attempt-Within left i (attempts o client left (suc i)) wait w
        (attempts-Within left (suc i))

  -- Where a request adds one to a count and a wait nothing, the fetch of a page makes at most one
  -- request more than there are retries, whatever the replies, the waits and the context do.
  pub get_page_ctx-requests :
      (w : W)
      → count (get_page_ctx o client w).1 ≤ count w + suc (max_retries client.max_retries_set)
  unfolding get_page_ctx Within
  get_page_ctx-requests w =
      attempts-Within (suc (max_retries client.max_retries_set)) 0
        (retry_wait client.retry_wait_set) none w
