-- ===== src/Socrata/Stream/Plain/Same.antt =====
-- That `StreamRows` is `StreamRowsCtx` without a context and without a projection.
use civic_soda_quack.Prelude.{
  ℕ, zero, suc, ◌+◌, ◌≡◌, refl, sym, inl, inr, Bool-cases, ap, ◌∙◌, Bool, false, ◌&&◌, none, List,
  [], ◌∷◌, length, Result, ok, err, str_eq, ltb, leb, ◌==◌, arith,
}
use civic_soda_quack.Socrata.{Row, selects_socrata_id}
use civic_soda_quack.Socrata.Stream.{
  Query, Request, Cursor, Round, remaining, query, advance, start, deliver, after_handler,
  after_page, round, follow, stream, if_set, stream_rows_ctx,
}
use civic_soda_quack.Socrata.Stream.Plain.{
  Place, wanted_rows, plain_query, moved, Step, halt, again, proceed, hand_over, handed_over,
  got_page, plain_round, plain_stream, stream_rows,
}

-- The same place as a cursor that goes by offsets.
abbrev as_cursor : Place → Cursor
as_cursor p = record { fetched = p.fetched; offset = p.offset; keyset = false; last_id = "" }

abbrev as_round : {E W : Type 0} → Step E W → Round E W
as_round (halt e w) = Round.halt e w
as_round (again p w) = Round.again (as_cursor p) w

and_false : (b : Bool) → (b && false) ≡ false
and_false b = ground arith

no_projection : selects_socrata_id "" ≡ false
unfolding selects_socrata_id
no_projection = refl

module _ {F E W : Type 0} (get_page : Query → W → Result E (List (Row F)) × W)
    (handler : List (Row F) → W → Result E (Unit {0}) × W) (r : Request) where
  abbrev bare : Request
  bare = record r { select = "" }

  query_same : (p : Place) → query bare (as_cursor p) ≡ plain_query r p
  unfolding query plain_query remaining wanted_rows if_set
  query_same p = refl

  wanted_same : (p : Place) → remaining bare (as_cursor p) ≡ wanted_rows r p
  unfolding remaining wanted_rows
  wanted_same p = refl

  hand_over_same :
      (page : List (Row F)) (w : W)
      → deliver (λ _. none) get_page handler bare page w ≡ hand_over get_page handler r page w
  unfolding deliver hand_over
  hand_over_same [] w = refl
  hand_over_same (row ∷ page) w = refl

  handed_over_same :
      (p : Place) (page : List (Row F)) (result : Result E (Unit {0})) (w : W)
      → after_handler (λ _. none) get_page handler bare (as_cursor p) page result w
        ≡ as_round (handed_over get_page handler r p page result w)
  unfolding after_handler handed_over remaining wanted_rows advance moved
  handed_over_same p page (err e) w = refl
  handed_over_same p page (ok u) w = elim (Bool-cases (ltb (length page) (wanted_rows r p))) [
    | inl y ↦ rw y refl
    | inr z ↦ rw z (elim (Bool-cases (ltb 0 r.limit && leb r.limit (p.fetched + length page))) [
      | inl y ↦ rw y refl
      | inr n ↦ rw n refl
    ])
  ]

  got_page_same :
      (p : Place) (result : Result E (List (Row F))) (w : W)
      → after_page (λ _. none) get_page handler bare (as_cursor p) result w
        ≡ as_round (got_page get_page handler r p result w)
  unfolding after_page got_page
  got_page_same p (err e) w = refl
  got_page_same p (ok page) w = rw (hand_over_same page w) (
      handed_over_same p page (hand_over get_page handler r page w).0
        (hand_over get_page handler r page w).1)

  round_same :
      (p : Place) (w : W)
      → round (λ _. none) get_page handler bare (as_cursor p) w
        ≡ as_round (plain_round get_page handler r p w)
  unfolding round plain_round
  round_same p w = rw (wanted_same p) (elim (Bool-cases (wanted_rows r p == 0)) [
    | inl y ↦ rw y refl
    | inr z ↦
        rw (z, query_same p)
          (got_page_same p (get_page (plain_query r p) w).0 (get_page (plain_query r p) w).1)
  ])

  stream_same :
      (fuel : ℕ) (p : Place) (w : W)
      → stream (λ _. none) get_page handler bare fuel (as_cursor p) w
        ≡ plain_stream get_page handler r fuel p w
  unfolding stream plain_stream follow proceed
  stream_same zero p w = refl
  stream_same (suc fuel) p w =
      ap (follow (stream (λ _. none) get_page handler bare fuel)) (round_same p w)
      ∙ followed (stream_same fuel) (plain_round get_page handler r p w)
    where
      followed :
          ((p : Place) (w : W)
            → stream (λ _. none) get_page handler bare fuel (as_cursor p) w
              ≡ plain_stream get_page handler r fuel p w)
          → (x : Step E W)
          → follow (stream (λ _. none) get_page handler bare fuel) (as_round x)
            ≡ proceed (plain_stream get_page handler r fuel) x
      followed rest (halt e w') = refl
      followed rest (again p' w') = rest p' w'

  -- Whatever the requests and the page handler do, StreamRows ends as StreamRowsCtx does with a
  -- context that is never cancelled and no projection, after the same requests and in the same
  -- world.
  pub stream_rows-stream_rows_ctx :
      (fuel : ℕ) (w : W)
      → stream_rows get_page handler r fuel w
        ≡ stream_rows_ctx (λ _. none) get_page handler (record r { select = "" }) fuel w
  unfolding stream_rows stream_rows_ctx start
  stream_rows-stream_rows_ctx fuel w =
      let no_keys : (str_eq r.order_by ":id" && selects_socrata_id "") ≡ false =
        rw no_projection (and_false (str_eq r.order_by ":id")) in
      sym (
        ap
          (λ b.
            stream (λ _. none) get_page handler (record r { select = "" }) fuel
              (record { fetched = 0; offset = 0; keyset = b; last_id = "" }) w)
          no_keys
        ∙ stream_same fuel (record { fetched = 0; offset = 0 }) w)
