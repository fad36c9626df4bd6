-- ===== src/Socrata/Retry/Examples.antt =====
-- A client with one retry, and the waits of its defaults.
use civic_soda_quack.Prelude.{
  ℕ, ◌+◌, ◌≤◌, ◌≡◌, ◌⊎◌, refl, String, true, false, none, List, [], ◌∷◌, ◌*◌, Result, ok, arith,
}
use civic_soda_quack.Socrata.{Row}
use civic_soda_quack.Socrata.Duration.{
  second, is_positive, parse_retry_after, or_default, max_retries, backoff_for, DrawsBelow,
  backoff_for_bounds,
}
use civic_soda_quack.Socrata.Retry.{
  Reply, response, http_status, Outside, Client, decoded, read_page, attempt_page, get_page_ctx,
}
use civic_soda_quack.Socrata.Retry.Bounds.{Counts, get_page_ctx-requests}
use civic_soda_quack.Socrata.Retry.Outcome.{in_store, get_page_ctx-Settles}

abbrev one_retry : Client
one_retry = record { max_retries_set = 1; retry_wait_set = 0; max_retry_wait_set = 0 }

abbrev decode : String → Result (Unit {0}) (List (Row ℕ))
decode s = ok []

abbrev draw : List (Reply (Unit {0})) → ℕ → ℕ
draw w n = 0

abbrev busy : Reply (Unit {0})
busy = response 503 "" "" none

abbrev fine : Reply (Unit {0})
fine = response 200 "" "[]" none

get_page_ctx-Settles_example :
    get_page_ctx (in_store {F = ℕ} {C = Unit {0}} tt decode draw) one_retry (busy ∷ fine ∷ [])
    ≡ (ok [], [])
unfolding attempt_page read_page decoded max_retries or_default
get_page_ctx-Settles_example =
    get_page_ctx-Settles tt decode draw one_retry (busy ∷ []) (http_status 503 ∷ []) fine [] (ok [])
      ((parse_retry_after "", refl), tt) (omega arith) refl

-- A network that counts its requests and is always busy.
abbrev counting : Outside ℕ (Unit {0}) (Unit {0}) ℕ
counting = record {
  request = λ w. (busy, w + 1);
  ctx_err = λ w. none;
  timer = λ d w. (none, w);
  draw = λ w n. 0;
  decode = decode;
}

counting-Counts : Counts counting (λ w. w)
counting-Counts = record { at_request = λ w. refl; at_timer = λ d w. refl }

get_page_ctx-requests_example : (get_page_ctx counting one_retry 0).1 ≤ 2
unfolding max_retries or_default
get_page_ctx-requests_example = get_page_ctx-requests counting one_retry (λ w. w) counting-Counts 0

-- A random source that draws the smallest number.
abbrev smallest : ℕ → ℕ
smallest n = 0

smallest-DrawsBelow : DrawsBelow smallest
smallest-DrawsBelow n h = h

backoff_for_bounds_example :
    (backoff_for smallest (2 * second) (30 * second) ≤ 30 * second)
    × (is_positive (2 * second) ≡ false → backoff_for smallest (2 * second) (30 * second) ≡ 0)
    × (is_positive (2 * second) ≡ true
        → (backoff_for smallest (2 * second) (30 * second) ≤ 2 * second)
          × ((2 * second ≤ 2 * backoff_for smallest (2 * second) (30 * second) + 1)
              ⊎ (30 * second ≤ 2 * backoff_for smallest (2 * second) (30 * second) + 1)))
backoff_for_bounds_example =
    backoff_for_bounds smallest (2 * second) (30 * second) smallest-DrawsBelow refl
