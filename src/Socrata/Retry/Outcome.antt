-- ===== src/Socrata/Retry/Outcome.antt =====
-- What the retries come to, over the replies that the network has in store.
use native.Mathlib.Nat.{suc-add, add-suc}
use mathlib.Core.Path.{ap₂}
use civic_soda_quack.Prelude.{
  ℕ, zero, suc, ◌+◌, ◌-◌, ◌≤◌, ◌≡◌, refl, ap, ◌∙◌, String, Option, none, some, List, [], ◌∷◌, ◌++◌,
  length, Result, ok, err, inl, inr, arith, if◌then◌else◌, Bool-cases,
}
use civic_soda_quack.Socrata.{Row}
use civic_soda_quack.Socrata.Duration.{
  is_positive, max_retries, retry_wait, max_retry_wait, backoff_for, doubled,
}
use civic_soda_quack.Socrata.Retry.{
  Reply, no_response, Attempt, page, transient, permanent, Failure, refused, exhausted, Outside,
  Client, PageError, Rest, attempt_page, sleep_ctx, after_check, after_attempt, attempt,
  after_sleep, one_attempt, attempts, get_page_ctx,
}

-- The replies in store are the world; without one, the connection is lost.
abbrev pub next_reply : {E : Type 0} → E → List (Reply E) → Reply E × List (Reply E)
next_reply lost [] = (no_response lost, [])
next_reply lost (reply ∷ more) = (reply, more)

-- A context that is never cancelled.
abbrev pub in_store :
    {F C E : Type 0}
    → E
    → (String → Result E (List (Row F)))
    → (List (Reply E) → ℕ → ℕ)
    → Outside F C E (List (Reply E))
in_store lost decode draw = record {
  request = next_reply lost;
  ctx_err = λ _. none;
  timer = λ _ w. (none, w);
  draw = draw;
  decode = decode;
}

-- The replies are all worth another attempt, with these errors.
abbrev pub AllTransient :
    {F E : Type 0}
    → (String → Result E (List (Row F)))
    → List (Reply E)
    → List (PageError E)
    → Type 0
AllTransient decode [] [] = Unit
AllTransient decode (reply ∷ replies) (e ∷ errors) =
    ((delay : ℕ) × (attempt_page decode reply ≡ transient e delay))
    × AllTransient decode replies errors
AllTransient decode _ _ = ⊥

-- The last error seen.
abbrev pub latest {ℓ} : {A : Type ℓ} → Option A → List A → Option A
latest o [] = o
latest o (e ∷ es) = latest (some e) es

-- How an attempt that is not worth another ends the fetch.
abbrev pub Settles : {F C E : Type 0} → Attempt F E → Result (Failure C E) (List (Row F)) → Type 0
Settles (page rows) result = result ≡ ok rows
Settles (permanent e) result = result ≡ err (refused e)
Settles (transient e delay) result = ⊥

module _ {F C E : Type 0} (lost : E) (decode : String → Result E (List (Row F)))
    (draw : List (Reply E) → ℕ → ℕ) (client : Client) where
  abbrev outside : Outside F C E (List (Reply E))
  outside = in_store lost decode draw

  -- A round is an attempt, at some wait.
  one_attempt_lem :
      (k : Rest outside client) (i wait : ℕ) (w : List (Reply E))
      → (wait' : ℕ) × (one_attempt outside client k i wait w ≡ attempt outside client k wait' w)
  unfolding one_attempt after_sleep sleep_ctx
  one_attempt_lem k zero wait w = (wait, refl)
  one_attempt_lem k (suc i) wait w =
      elim (Bool-cases
        (is_positive (backoff_for (draw w) wait (max_retry_wait client.max_retry_wait_set)))) [
          | inl y ↦ (doubled wait, rw y)
          | inr z ↦ (doubled wait, rw z)
        ]

  attempt_transient :
      (k : Rest outside client) (wait : ℕ) (reply : Reply E) (w : List (Reply E)) (e : PageError E)
      (delay : ℕ)
      → attempt_page decode reply ≡ transient e delay
      → (wait' : ℕ) × (attempt outside client k wait (reply ∷ w) ≡ k wait' (some e) w)
  unfolding attempt after_attempt after_check
  attempt_transient k wait reply w e delay h = (if is_positive delay then delay else wait, rw h)

  -- Replies worth another attempt use up rounds, and nothing else that matters.
  attempts_skip :
      (bad : List (Reply E)) (errors : List (PageError E)) (rest : List (Reply E)) (left i wait : ℕ)
      (last : Option (PageError E))
      → AllTransient decode bad errors
      → (wait' : ℕ) × (attempts outside client (length bad + left) i wait last (bad ++ rest)
          ≡ attempts outside client left (i + length bad) wait' (latest last errors) rest)
  unfolding attempts
  attempts_skip [] [] rest left i wait last h =
      (wait, ap₂ (λ a b. attempts outside client a b wait last rest) (omega arith) (omega arith))
  attempts_skip [] (e ∷ errors) rest left i wait last h = elim h [ ]
  attempts_skip (reply ∷ bad) [] rest left i wait last h = elim h [ ]
  attempts_skip (reply ∷ bad) (e ∷ errors) rest left i wait last ((delay, t), h) =
      let (wait1, p) =
        one_attempt_lem (attempts outside client (length bad + left) (suc i)) i wait
          (reply ∷ bad ++ rest) in
      let (wait2, q) =
        attempt_transient (attempts outside client (length bad + left) (suc i)) wait1 reply
          (bad ++ rest) e delay t in
      let (wait3, ih) = attempts_skip bad errors rest left (suc i) wait2 (some e) h in
      (wait3, rw (suc-add, add-suc) (p ∙ q ∙ rw (suc-add) at ih))

  attempt-Settles :
      (k : Rest outside client) (wait : ℕ) (reply : Reply E) (more : List (Reply E))
      (a : Attempt F E) (result : Result (Failure C E) (List (Row F)))
      → attempt_page decode reply ≡ a
      → Settles a result
      → attempt outside client k wait (reply ∷ more) ≡ (result, more)
  unfolding attempt after_attempt
  attempt-Settles k wait reply more (page rows) result e s = rw (e, s)
  attempt-Settles k wait reply more (permanent x) result e s = rw (e, s)
  attempt-Settles k wait reply more (transient x d) result e s = elim s [ ]

  -- With a context that is not cancelled, after at most as many transient replies as there are
  -- retries, the fetch of a page answers with what the first other reply means, its rows or its
  -- error, and asks for no further reply.
  pub get_page_ctx-Settles :
      (bad : List (Reply E)) (errors : List (PageError E)) (reply : Reply E) (more : List (Reply E))
      (result : Result (Failure C E) (List (Row F)))
      → AllTransient decode bad errors
      → length bad ≤ max_retries client.max_retries_set
      → Settles (attempt_page decode reply) result
      → get_page_ctx outside client (bad ++ reply ∷ more) ≡ (result, more)
  unfolding get_page_ctx attempts
  get_page_ctx-Settles bad errors reply more result h fits s =
      let m = max_retries client.max_retries_set in
      let left = m - length bad in
      let wait = retry_wait client.retry_wait_set in
      let (wait1, p) = attempts_skip bad errors (reply ∷ more) (suc left) 0 wait none h in
      let (wait2, q) =
        one_attempt_lem (attempts outside client left (suc (0 + length bad))) (0 + length bad) wait1
          (reply ∷ more) in
      let rounds : suc m ≡ length bad + suc left = omega arith in
      ap (λ n. attempts outside client n 0 wait none (bad ++ reply ∷ more)) rounds
      ∙ p
      ∙ q
      ∙ attempt-Settles _ wait2 reply more (attempt_page decode reply) result refl s

  -- With a context that is not cancelled and one transient reply more than there are retries, the
  -- fetch of a page gives up with the last reply's error and the number of attempts made, and asks
  -- for no further reply.
  pub get_page_ctx_exhausts :
      (bad : List (Reply E)) (errors : List (PageError E)) (more : List (Reply E))
      → AllTransient decode bad errors
      → length bad ≡ suc (max_retries client.max_retries_set)
      → get_page_ctx outside client (bad ++ more)
        ≡ (err (exhausted (suc (max_retries client.max_retries_set)) (latest none errors)), more)
  unfolding get_page_ctx attempts
  get_page_ctx_exhausts bad errors more h full =
      let m = max_retries client.max_retries_set in
      let wait = retry_wait client.retry_wait_set in
      let (wait1, p) = attempts_skip bad errors more 0 0 wait none h in
      let rounds : suc m ≡ length bad + 0 = omega arith in
      let count : 0 + length bad ≡ suc m = omega arith in
      ap (λ n. attempts outside client n 0 wait none (bad ++ more)) rounds
      ∙ p
      ∙ ap (λ n. (err (exhausted n (latest none errors)), more)) count
