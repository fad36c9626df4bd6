-- ===== src/Socrata/Retry.antt =====
-- One page with retries: `attemptPage`, `getPageCtx` and `sleepCtx` of internal/socrata/client.go.
-- `W` is the world outside: the network, the timer, the context and the random source. `C` is the
-- error of a cancelled context and `E` any other error of a library. Error texts are left out.
mod Examples
mod Outcome
mod Bounds
use civic_soda_quack.Prelude.{
  ℕ, zero, suc, ◌+◌, String, Bool, ◌||◌, Option, none, some, List, Result, ok, err, leb, ◌==◌,
  if◌then◌else◌,
}
use civic_soda_quack.Socrata.{Row}
use civic_soda_quack.Socrata.Duration.{
  is_positive, doubled, retry_wait, max_retry_wait, max_retries, backoff_for, parse_retry_after,
}

pub data PageError (E : Type 0) : Type 0 where
  build_request : E → PageError E
  transport : E → PageError E
  read_body : E → PageError E
  decode_page : E → PageError E
  http_status : ℕ → PageError E

-- What one HTTP exchange gives: a response has its status, its `Retry-After` header, its body and
-- the error that cut the body off.
pub data Reply (E : Type 0) : Type 0 where
  no_request : E → Reply E
  no_response : E → Reply E
  response : ℕ → String → String → Option E → Reply E

-- `attemptPage`'s results: `transient` is a `retryableError`, with the server's delay.
pub data Attempt (F E : Type 0) : Type 0 where
  page : List (Row F) → Attempt F E
  transient : PageError E → ℕ → Attempt F E
  permanent : PageError E → Attempt F E

-- How `getPageCtx` fails.
pub data Failure (C E : Type 0) : Type 0 where
  cancelled : C → Failure C E
  refused : PageError E → Failure C E
  exhausted : ℕ → Option (PageError E) → Failure C E

module _ {F E : Type 0} (decode : String → Result E (List (Row F))) where
  decoded : Result E (List (Row F)) → Attempt F E
  decoded (ok rows) = page rows
  decoded (err e) = permanent (decode_page e)

  -- The body is read to its end before it is decoded.
  read_page : String → Option E → Attempt F E
  read_page body none = decoded (decode body)
  read_page body (some e) = transient (read_body e) 0

  pub attempt_page : Reply E → Attempt F E
  unfolding read_page decoded
  attempt_page (no_request e) = permanent (build_request e)
  attempt_page (no_response e) = transient (transport e) 0
  attempt_page (response status retry_after body fault) =
      if status == 200
      then read_page body fault
      else if status == 429 || leb 500 status
      then transient (http_status status) (parse_retry_after retry_after)
      else permanent (http_status status)

-- The fields of `Client` that a retry reads.
pub record Client : Type 0 where
  pub max_retries_set : ℕ
  pub retry_wait_set : ℕ
  pub max_retry_wait_set : ℕ

-- The library calls: `http.Client.Do` with the reading of the body, `ctx.Err`, a `time.Timer` raced
-- against the context, `rand.Int63n`, `json.Unmarshal`.
pub record Outside (F C E W : Type 0) : Type 0 where
  pub request : W → Reply E × W
  pub ctx_err : W → Option C
  pub timer : ℕ → W → Option C × W
  pub draw : W → ℕ → ℕ
  pub decode : String → Result E (List (Row F))

module _ {F C E W : Type 0} (o : Outside F C E W) (client : Client) where
  -- The rest of the loop, from the wait and the last error.
  abbrev Rest : Type 0
  Rest = ℕ → Option (PageError E) → W → Result (Failure C E) (List (Row F)) × W

  pub sleep_ctx : ℕ → W → Option C × W
  sleep_ctx d w = if is_positive d then o.timer d w else (o.ctx_err w, w)

  after_check : Rest → ℕ → PageError E → Option C → W → Result (Failure C E) (List (Row F)) × W
  after_check k wait e none w = k wait (some e) w
  after_check k wait e (some c) w = (err (cancelled c), w)

  after_attempt : Rest → ℕ → Attempt F E → W → Result (Failure C E) (List (Row F)) × W
  unfolding after_check
  after_attempt k wait (page rows) w = (ok rows, w)
  after_attempt k wait (permanent e) w = (err (refused e), w)
  after_attempt k wait (transient e retry_after) w =
      after_check k (if is_positive retry_after then retry_after else wait) e (o.ctx_err w) w

  attempt : Rest → ℕ → W → Result (Failure C E) (List (Row F)) × W
  attempt k wait w =
      let (reply, w') = o.request w in after_attempt k wait (attempt_page o.decode reply) w'

  after_sleep : Rest → ℕ → Option C → W → Result (Failure C E) (List (Row F)) × W
  after_sleep k wait none w = attempt k (doubled wait) w
  after_sleep k wait (some c) w = (err (cancelled c), w)

  -- One round of the `for`, numbered from 0.
  pub one_attempt : Rest → ℕ → ℕ → W → Result (Failure C E) (List (Row F)) × W
  one_attempt k zero wait w = attempt k wait w
  one_attempt k (suc i) wait w =
      let d = backoff_for (o.draw w) wait (max_retry_wait client.max_retry_wait_set) in
      let (stopped, w') = sleep_ctx d w in after_sleep k wait stopped w'

  -- The rounds that are left, after `i` of them.
  pub attempts : ℕ → ℕ → Rest
  attempts zero i wait last w = (err (exhausted i last), w)
  attempts (suc left) i wait last w = one_attempt (attempts left (suc i)) i wait w

  pub get_page_ctx : W → Result (Failure C E) (List (Row F)) × W
  get_page_ctx w =
      attempts (suc (max_retries client.max_retries_set)) 0 (retry_wait client.retry_wait_set) none
        w
