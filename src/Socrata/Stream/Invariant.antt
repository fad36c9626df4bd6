-- ===== src/Socrata/Stream/Invariant.antt =====
-- What a stream leaves as it is: a predicate that every request and every page handler keeps.
use civic_soda_quack.Prelude.{
  ℕ, zero, suc, inl, inr, Bool, true, false, ◌&&◌, Option, List, [], ◌∷◌, length, Result, ok, err,
  ltb, leb, ◌==◌, if◌then◌else◌, Option-cases,
}
use civic_soda_quack.Socrata.{Row}
use civic_soda_quack.Socrata.Stream.{
  Query, Ending, Request, Cursor, Round, halt, again, remaining, query, advance, start, deliver,
  after_handler, after_page, round, follow, stream, stream_rows_ctx,
}

module _ {F E W : Type 0} (ctx_err : W → Option E)
    (get_page : Query → W → Result E (List (Row F)) × W)
    (handler : List (Row F) → W → Result E (Unit {0}) × W) (r : Request) (P : W → Type 0)
    (page_keeps : (q : Query) (w : W) → P w → P (get_page q w).1)
    (handler_keeps : (page : List (Row F)) (w : W) → P w → P (handler page w).1) where
  -- The predicate holds in the world that a round leaves.
  RoundKeeps : Round E W → Type 0
  RoundKeeps (halt e w) = P w
  RoundKeeps (again c w) = P w

  if-RoundKeeps :
      (b : Bool) (x y : Round E W) → RoundKeeps x → RoundKeeps y → RoundKeeps (if b then x else y)
  if-RoundKeeps true x y h k = h
  if-RoundKeeps false x y h k = k

  after_handler-RoundKeeps :
      (c : Cursor) (page : List (Row F)) (result : Result E (Unit {0})) (w : W)
      → P w
      → RoundKeeps (after_handler ctx_err get_page handler r c page result w)
  unfolding after_handler RoundKeeps
  after_handler-RoundKeeps c page (err e) w h = h
  after_handler-RoundKeeps c page (ok u) w h =
      if-RoundKeeps (ltb (length page) (remaining r c)) _ _ h
        (if-RoundKeeps (ltb 0 r.limit && leb r.limit (advance c page).fetched) _ _ h h)

  deliver_keeps :
      (page : List (Row F)) (w : W) → P w → P (deliver ctx_err get_page handler r page w).1
  unfolding deliver
  deliver_keeps [] w h = h
  deliver_keeps (row ∷ page) w h = handler_keeps (row ∷ page) w h

  after_page-RoundKeeps :
      (c : Cursor) (result : Result E (List (Row F))) (w : W)
      → P w
      → RoundKeeps (after_page ctx_err get_page handler r c result w)
  unfolding after_page RoundKeeps
  after_page-RoundKeeps c (err e) w h = h
  after_page-RoundKeeps c (ok page) w h =
      after_handler-RoundKeeps c page _ _ (deliver_keeps page w h)

  round-RoundKeeps : (c : Cursor) (w : W) → P w → RoundKeeps (round ctx_err get_page handler r c w)
  unfolding round RoundKeeps
  round-RoundKeeps c w h = elim (Option-cases (ctx_err w)) [
    | inl e ↦
        rw (e, round)
          (if-RoundKeeps (remaining r c == 0) _ _ h (
            after_page-RoundKeeps c (get_page (query r c) w).0 (get_page (query r c) w).1
              (page_keeps (query r c) w h)))
    | inr (x, e) ↦ rw (e, round) h
  ]

  follow_keeps :
      (k : Cursor → W → Ending E × W) (x : Round E W)
      → ((c : Cursor) (w : W) → P w → P (k c w).1)
      → RoundKeeps x
      → P (follow k x).1
  unfolding follow RoundKeeps
  follow_keeps k (halt e w) rest h = h
  follow_keeps k (again c w) rest h = rest c w h

  stream_keeps :
      (fuel : ℕ) (c : Cursor) (w : W) → P w → P (stream ctx_err get_page handler r fuel c w).1
  unfolding stream
  stream_keeps zero c w h = h
  stream_keeps (suc fuel) c w h =
      follow_keeps (stream ctx_err get_page handler r fuel) (round ctx_err get_page handler r c w)
        (stream_keeps fuel) (round-RoundKeeps c w h)

  pub stream_rows_ctx_keeps :
      (fuel : ℕ) (w : W) → P w → P (stream_rows_ctx ctx_err get_page handler r fuel w).1
  unfolding stream_rows_ctx
  stream_rows_ctx_keeps fuel w h = stream_keeps fuel (start r) w h
