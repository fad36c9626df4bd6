-- ===== src/Socrata/Stream/Complete.antt =====
-- What a stream delivers from a portal that answers each query from one ordered dataset.
use civic_soda_quack.Prelude.{
  ℕ, zero, suc, ◌+◌, ◌-◌, ◌≤◌, ◌<◌, min, ◌≡◌, refl, ap, ◌∙◌, inl, inr, String, true, false, Option,
  none, some, List, [], ◌∷◌, ◌++◌, append-nil, length, take, drop, get_elem?, ◌==◌, length-take,
  length-drop, ok, ltb, leb, ◌&&◌, ltb→lt, lt→ltb, arith, if◌then◌else◌, Bool-cases,
}
use civic_soda_quack.Socrata.{Row, socrata_id_of}
use civic_soda_quack.Socrata.Stream.{
  Query, Ending, finished, Request, Cursor, Round, halt, again, if_set, remaining, seek_where,
  query, advance, start, deliver, after_handler, round, follow, stream, stream_rows_ctx,
}
use civic_soda_quack.Socrata.Stream.Cursors.{id_not_empty, advance_counts}
use civic_soda_quack.Socrata.Stream.Positions.{
  KeyAt, At, remaining_bounds, advance-At, final_rows, join_page, up_to,
}

-- A query of the client: only the page, the position and the filter vary.
abbrev pub asking : Request → ℕ → Option ℕ → String → Query
asking r k n base = record {
  limit = k;
  offset = n;
  order = if_set r.order_by;
  where_clause = if_set base;
  select = if_set r.select;
}

-- The portal holds `rows`, those that the filter keeps in the order asked for. By offset it skips
-- rows; by a key it answers with what follows the row of that `:id`.
pub record Serves {F : Type 0} (r : Request) (rows : List (Row F)) (serve : Query → List (Row F))
    : Type 0 where
  pub by_offset : (k n : ℕ) → serve (asking r k (some n) r.where_clause) ≡ take k (drop n rows)
  pub first_page : (k : ℕ) → serve (asking r k none r.where_clause) ≡ take k rows
  pub after_key :
      (k i : ℕ) (row : Row F) (id : String)
      → get_elem? rows i ≡ some row
      → socrata_id_of row ≡ some id
      → serve (asking r k none (seek_where r.where_clause id)) ≡ take k (drop (suc i) rows)

module _ {F : Type 0} (r : Request) (rows : List (Row F)) where
  module _ (serve : Query → List (Row F)) (honest : Serves r rows serve) where
    keyed_query :
        (n : ℕ) (c : Cursor)
        → At r rows n c
        → c.keyset ≡ true
        → KeyAt r rows n c.last_id
        → serve (query r c) ≡ take (remaining r c) (drop n rows)
    unfolding query KeyAt remaining
    keyed_query zero c h k e = rw (k, e) (honest.first_page (remaining r c))
    keyed_query (suc i) c h k (row, at, id) =
        rw (k, id_not_empty row c.last_id id)
          (honest.after_key (remaining r c) i row c.last_id at id)

    serve-query :
        (n : ℕ) (c : Cursor)
        → At r rows n c
        → serve (query r c) ≡ take (remaining r c) (drop n rows)
    unfolding query remaining
    serve-query n c h = elim (Bool-cases c.keyset) [
      | inl k ↦ keyed_query n c h k (h.keyed k)
      | inr o ↦ rw (o, h.offset_eq) (honest.by_offset (remaining r c) n)
    ]

    -- The portal answers, nothing fails, and the handler collects.
    abbrev one_round : Cursor → List (Row F) → Round (Unit {0}) (List (Row F))
    one_round =
        round {E = Unit {0}} (λ _. none) (λ q w. (ok (serve q), w)) (λ page w. (ok tt, w ++ page)) r

    abbrev settle : Cursor → List (Row F) → List (Row F) → Round (Unit {0}) (List (Row F))
    settle c page w =
        after_handler {E = Unit {0}} (λ _. none) (λ q w. (ok (serve q), w))
          (λ page w. (ok tt, w ++ page)) r c page (ok tt) w

    deliver_lem :
        (page w : List (Row F))
        → deliver {E = Unit {0}}
            (λ _. none)
            (λ q w. (ok (serve q), w))
            (λ page w. (ok tt, w ++ page))
            r
            page
            w
          ≡ (ok tt, w ++ page)
    unfolding deliver
    deliver_lem [] w = rw append-nil
    deliver_lem (x ∷ page) w = refl

    one_round_lem :
        (n : ℕ) (c : Cursor) (w : List (Row F))
        → At r rows n c
        → one_round c w
          ≡ settle c (take (remaining r c) (drop n rows)) (w ++ take (remaining r c) (drop n rows))
    unfolding round
    one_round_lem n c w h =
        simp (deliver_lem, serve-query n c h)
          (elim (Bool-cases (remaining r c == 0)) [
            | inl e ↦ absurd (ground (arith, (remaining_bounds r rows n c h).0))
            | inr e ↦ rw e refl
          ])

    abbrev run_stream : ℕ → Cursor → List (Row F) → Ending (Unit {0}) × List (Row F)
    run_stream =
        stream {E = Unit {0}} (λ _. none) (λ q w. (ok (serve q), w)) (λ page w. (ok tt, w ++ page))
          r

    settle_short :
        (c : Cursor) (page w : List (Row F))
        → length page < remaining r c
        → settle c page w ≡ halt finished w
    unfolding after_handler
    settle_short c page w h = rw (lt→ltb _ _ h)

    settle_full :
        (c : Cursor) (page w : List (Row F))
        → ltb (length page) (remaining r c) ≡ false
        → settle c page w ≡ (
            if ltb 0 r.limit && leb r.limit (advance c page).fetched
            then halt finished w
            else again (advance c page) w)
    unfolding after_handler
    settle_full c page w h = rw h

    -- From `n` rows on, the loop delivers what is left.
    run_stream-At :
        (fuel n : ℕ) (c : Cursor) (w : List (Row F))
        → At r rows n c
        → length rows - n < fuel
        → run_stream fuel c (w ++ take n rows) ≡ (finished, w ++ up_to r.limit rows)
    unfolding stream follow
    run_stream-At zero n c w h enough = elim enough [ ]
    run_stream-At (suc fuel) n c w h enough =
        let k = remaining r c in
        let page = take k (drop n rows) in
        let (more, cap) = remaining_bounds r rows n c h in
        let size : length page ≡ min k (length rows - n) =
          length-take k (drop n rows) ∙ ap (min k) (length-drop n rows) in
        let count : (advance c page).fetched ≡ n + length page =
          omega (arith, (advance_counts c page).0) in
        rw (one_round_lem n c (w ++ take n rows) h, join_page r rows n k w)
          (elim (Bool-cases (ltb (length page) k)) [
            | inl short ↦ rw (settle_short c page (w ++ take (n + k) rows) (ltb→lt _ _ short)) (
                ap (λ t. (finished, t))
                  (final_rows r rows n k w cap (inl (ground (arith, size, h.within)))))
            | inr full ↦
                let fits : n + k ≤ length rows = ground (arith, size, h.within) in
                let now : (advance c page).fetched ≡ n + k =
                  ground (arith, size, count, h.within) in
                rw (settle_full c page (w ++ take (n + k) rows) full)
                  (elim (Bool-cases (ltb 0 r.limit && leb r.limit (advance c page).fetched)) [
                    | inl stop ↦ rw stop (
                        ap (λ t. (finished, t))
                          (final_rows r rows n k w cap (inr (ground arith, ground arith))))
                    | inr go ↦ rw go (
                        run_stream-At fuel (n + k) (advance c page) w
                          (advance-At r rows n k c h more fits (λ l. ground arith)) (omega arith))
                  ])
          ])

    -- From a portal that answers every query out of one ordered list of rows, by keys or by
    -- offsets, with no error and no cancellation, and with more fuel than there are rows, the
    -- stream ends by itself and hands the page handler exactly the rows up to the limit, each once
    -- and in order, also where it changes from keys to offsets halfway.
    pub stream_rows_ctx_complete :
        (fuel : ℕ)
        → length rows < fuel
        → stream_rows_ctx {E = Unit {0}}
            (λ _. none)
            (λ q w. (ok (serve q), w))
            (λ page w. (ok tt, w ++ page))
            r
            fuel
            []
          ≡ (finished, up_to r.limit rows)
    unfolding stream_rows_ctx start KeyAt
    stream_rows_ctx_complete fuel enough =
        run_stream-At fuel 0 (start r) []
          (record {
            fetched_eq = refl;
            offset_eq = refl;
            within = omega arith;
            below = λ l. l;
            keyed = λ _. refl;
          })
          (omega arith)
