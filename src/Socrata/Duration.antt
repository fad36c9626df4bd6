-- ===== src/Socrata/Duration.antt =====
-- The waits between two attempts of a request (internal/socrata/client.go). A `time.Duration` is an
-- int64 of nanoseconds, kept as its bit pattern below 2^64: from 2^63 on it is negative.
use Prim.Native.Char.{code}
use civic_soda_quack.Prelude.{
  ℕ, ◌+◌, ◌*◌, ◌-◌, ◌/◌, ◌%◌, ◌^◌, ◌≤◌, ◌<◌, ◌≡◌, ◌⊎◌, String, Bool, true, false, ◌&&◌, Option,
  none, some, ltb, leb, ◌==◌, str_eq, arith, if◌then◌else◌,
}

abbrev pub int64_mod : ℕ
int64_mod = 2 ^ 64

abbrev pub int64_sign : ℕ
int64_sign = 2 ^ 63

-- `time.Second`
abbrev pub second : ℕ
second = 1000000000

-- `d > 0`
abbrev pub is_positive : ℕ → Bool
is_positive d = ltb 0 d && ltb d int64_sign

-- `a > b` for a positive `b`
abbrev pub exceeds : ℕ → ℕ → Bool
exceeds a b = ltb a int64_sign && ltb b a

-- `wait *= 2`
pub doubled : ℕ → ℕ
doubled wait = wait * 2 % int64_mod

-- `retryWait`, `maxRetryWait` and `maxRetries`: the default where the field is not above 0.
unfoldable pub or_default : ℕ → ℕ → ℕ
or_default d configured = if is_positive configured then configured else d

pub retry_wait : ℕ → ℕ
retry_wait = or_default second

pub max_retry_wait : ℕ → ℕ
max_retry_wait = or_default (30 * second)

unfoldable pub max_retries : ℕ → ℕ
max_retries = or_default 8

-- `backoffFor`; `draw n` is `rand.Int63n(n)`.
pub backoff_for : (ℕ → ℕ) → ℕ → ℕ → ℕ
backoff_for draw wait cap =
    let w = if exceeds wait cap then cap else wait in
    if is_positive w then w / 2 + draw (w / 2 + 1) else 0

-- The digits of `strconv.Atoi`, up to the largest int.
digits_from : ℕ → String → Option ℕ
digits_from n String.[] = some n
digits_from n (String.◌∷◌ c s) =
    if leb b'0' (code c) && leb (code c) b'9' && ltb (n * 10 + (code c - b'0')) int64_sign
    then digits_from (n * 10 + (code c - b'0')) s
    else none

digits : String → Option ℕ
digits s = if str_eq s "" then none else digits_from 0 s

-- A result that is not negative, for a text with or without a sign `+`. A text with the sign `-` is
-- an error, a negative number or 0, all of which the caller answers with 0.
atoi_nonneg : String → Option ℕ
atoi_nonneg String.[] = none
atoi_nonneg (String.◌∷◌ c s) = if code c == b'+' then digits s else digits (String.◌∷◌ c s)

seconds_of : Option ℕ → ℕ
seconds_of none = 0
seconds_of (some secs) = secs * second % int64_mod

-- `parseRetryAfter`
pub parse_retry_after : String → ℕ
parse_retry_after v = seconds_of (atoi_nonneg v)

-- What `rand.Int63n` documents: for a positive bound, a number below it.
abbrev pub DrawsBelow : (ℕ → ℕ) → Type 0
DrawsBelow draw = (n : ℕ) → 0 < n → draw n < n

-- For a random source that draws below its bound and a positive ceiling, a wait is at most the
-- ceiling; it is none for a delay that is not positive, and otherwise at most the delay and at
-- least half of the delay or of the ceiling.
pub backoff_for_bounds :
    (draw : ℕ → ℕ) (wait cap : ℕ)
    → DrawsBelow draw
    → is_positive cap ≡ true
    → (backoff_for draw wait cap ≤ cap)
      × (is_positive wait ≡ false → backoff_for draw wait cap ≡ 0)
      × (is_positive wait ≡ true
          → (backoff_for draw wait cap ≤ wait)
            × ((wait ≤ 2 * backoff_for draw wait cap + 1)
                ⊎ (cap ≤ 2 * backoff_for draw wait cap + 1)))
unfolding backoff_for
backoff_for_bounds draw wait cap d pos =
    let low = d (wait / 2 + 1) (omega arith) in
    let high = d (cap / 2 + 1) (omega arith) in
    (ground arith, λ z. ground arith, λ p. (ground arith, ground arith))

-- For a random source that draws below its bound and a positive ceiling, a delay asked for by the
-- server that is above the ceiling is not waited for in full.
retry_after_cut :
    (draw : ℕ → ℕ) (asked cap : ℕ)
    → DrawsBelow draw
    → is_positive cap ≡ true
    → is_positive asked ≡ true
    → cap < asked
    → backoff_for draw asked cap < asked
retry_after_cut draw asked cap d pos _ above =
    omega (arith, (backoff_for_bounds draw asked cap d pos).0)
