-- ===== src/Socrata/Stream/Plain.antt =====
-- Paging by offsets only: `StreamRows` of internal/socrata/client.go, the path of `csq fetch`.
pub mod Same
use civic_soda_quack.Prelude.{
  ℕ, zero, suc, ◌+◌, ◌-◌, Bool, ◌&&◌, none, some, List, [], ◌∷◌, length, Result, ok, err, ltb, leb,
  ◌==◌, if◌then◌else◌,
}
use civic_soda_quack.Socrata.{Row}
use civic_soda_quack.Socrata.Stream.{
  Query, Ending, finished, stopped, out_of_fuel, Request, batch_size, if_set,
}

-- `fetched` and `offset`.
pub record Place : Type 0 where
  pub fetched : ℕ
  pub offset : ℕ

pub wanted_rows : Request → Place → ℕ
wanted_rows r p =
    if ltb 0 r.limit && ltb (r.limit - p.fetched) (batch_size r.batch)
    then r.limit - p.fetched
    else batch_size r.batch

-- The query of a round; no `$select` is sent.
pub plain_query : Request → Place → Query
unfolding wanted_rows
plain_query r p = record {
  limit = wanted_rows r p;
  offset = some p.offset;
  order = if_set r.order_by;
  where_clause = if_set r.where_clause;
  select = none;
}

pub moved : {F : Type 0} → Place → List (Row F) → Place
moved p page = record { fetched = p.fetched + length page; offset = p.offset + length page }

-- What a round leaves.
pub data Step (E W : Type 0) : Type 0 where
  halt : Ending E → W → Step E W
  again : Place → W → Step E W

pub proceed : {E W : Type 0} → (Place → W → Ending E × W) → Step E W → Ending E × W
proceed k (halt e w) = (e, w)
proceed k (again p w) = k p w

module _ {F E W : Type 0} (get_page : Query → W → Result E (List (Row F)) × W)
    (handler : List (Row F) → W → Result E (Unit {0}) × W) (r : Request) where
  pub hand_over : List (Row F) → W → Result E (Unit {0}) × W
  hand_over [] w = (ok tt, w)
  hand_over (row ∷ page) w = handler (row ∷ page) w

  pub handed_over : Place → List (Row F) → Result E (Unit {0}) → W → Step E W
  handed_over p page (err e) w = halt (stopped e) w
  handed_over p page (ok _) w =
      if ltb (length page) (wanted_rows r p)
      then halt finished w
      else if ltb 0 r.limit && leb r.limit (moved p page).fetched
      then halt finished w
      else again (moved p page) w

  pub got_page : Place → Result E (List (Row F)) → W → Step E W
  unfolding hand_over handed_over
  got_page p (err e) w = halt (stopped e) w
  got_page p (ok page) w = let (result, w') = hand_over page w in handed_over p page result w'

  -- One round of the `for`.
  pub plain_round : Place → W → Step E W
  unfolding got_page
  plain_round p w =
      if wanted_rows r p == 0
      then halt finished w
      else let (result, w') = get_page (plain_query r p) w in got_page p result w'

  pub plain_stream : ℕ → Place → W → Ending E × W
  unfolding proceed
  plain_stream zero p w = (out_of_fuel, w)
  plain_stream (suc fuel) p w = proceed (plain_stream fuel) (plain_round p w)

  pub stream_rows : ℕ → W → Ending E × W
  unfolding plain_stream
  stream_rows fuel w = plain_stream fuel (record { fetched = 0; offset = 0 }) w
