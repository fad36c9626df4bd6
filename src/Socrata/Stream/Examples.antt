-- ===== src/Socrata/Stream/Examples.antt =====
-- A portal with two rows, read by their keys one row at a time.
use civic_soda_quack.Prelude.{
  ℕ, zero, suc, ◌≡◌, refl, subst, String, Option, none, some, List, [], ◌∷◌, ◌++◌, take, drop,
  get_elem?, ok, str_eq, arith, if◌then◌else◌,
}
use civic_soda_quack.Prelude.Maps.{get}
use civic_soda_quack.Socrata.{Row, text, usable_id, matches_id_pattern, socrata_id_of}
use civic_soda_quack.Socrata.Stream.{
  Query, Request, finished, if_set, seek, seek_where, stream_rows_ctx,
}
use civic_soda_quack.Socrata.Stream.Plain.{stream_rows}
use civic_soda_quack.Socrata.Stream.Plain.Same.{stream_rows-stream_rows_ctx}
use civic_soda_quack.Socrata.Stream.Complete.{Serves, asking, stream_rows_ctx_complete}

abbrev row_a : Row ℕ
row_a = (":id", text "a") ∷ []

abbrev row_b : Row ℕ
row_b = (":id", text "b") ∷ []

abbrev rows : List (Row ℕ)
rows = row_a ∷ row_b ∷ []

abbrev one_by_one : Request
one_by_one = record { order_by = ":id"; where_clause = ""; select = ":*,*"; limit = 0; batch = 1 }

-- How many rows a clause leaves behind.
abbrev behind : Option String → ℕ
behind none = 0
behind (some s) = if str_eq s ":id > 'a'" then 1 else if str_eq s ":id > 'b'" then 2 else 0

abbrev from : Query → ℕ
from q = elim q.offset [ some n ↦ n | none ↦ behind q.where_clause ]

portal : Query → List (Row ℕ)
portal q = take q.limit (drop (from q) rows)

key_of :
    (row : Row ℕ) (k id : String)
    → socrata_id_of row ≡ some k
    → socrata_id_of row ≡ some id
    → k ≡ id
key_of row k id h key = cc

key_a : socrata_id_of row_a ≡ some "a"
unfolding socrata_id_of usable_id get matches_id_pattern
key_a = refl

key_b : socrata_id_of row_b ≡ some "b"
unfolding socrata_id_of usable_id get matches_id_pattern
key_b = refl

portal-Serves : Serves one_by_one rows portal
unfolding portal if_set seek_where seek
portal-Serves = record { by_offset = λ k n. refl; first_page = λ k. refl; after_key = after }
  where
    after :
        (k i : ℕ) (row : Row ℕ) (id : String)
        → get_elem? rows i ≡ some row
        → socrata_id_of row ≡ some id
        → portal (asking one_by_one k none (seek_where "" id)) ≡ take k (drop (suc i) rows)
    after k zero row id at key =
        subst (λ s. portal (asking one_by_one k none (seek_where "" s)) ≡ take k (drop 1 rows))
          (key_of row_a "a" id key_a (cc (at, key))) refl
    after k (suc zero) row id at key =
        subst (λ s. portal (asking one_by_one k none (seek_where "" s)) ≡ take k (drop 2 rows))
          (key_of row_b "b" id key_b (cc (at, key))) refl
    after k (suc (suc i)) row id at key = cc

stream_rows_ctx_complete_example :
    stream_rows_ctx {E = Unit {0}}
      (λ _. none)
      (λ q w. (ok (portal q), w))
      (λ page w. (ok tt, w ++ page))
      one_by_one
      3
      []
    ≡ (finished, rows)
stream_rows_ctx_complete_example =
    stream_rows_ctx_complete one_by_one rows portal portal-Serves 3 (omega arith)

stream_rows-stream_rows_ctx_example :
    stream_rows {E = Unit {0}}
      (λ q w. (ok (portal q), w))
      (λ page w. (ok tt, w ++ page))
      one_by_one
      3
      []
    ≡ stream_rows_ctx {E = Unit {0}}
        (λ _. none)
        (λ q w. (ok (portal q), w))
        (λ page w. (ok tt, w ++ page))
        (record one_by_one { select = "" })
        3
        []
stream_rows-stream_rows_ctx_example =
    stream_rows-stream_rows_ctx (λ q w. (ok (portal q), w)) (λ page w. (ok tt, w ++ page))
      one_by_one 3 []
