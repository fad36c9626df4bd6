-- ===== src/Socrata/Stream.antt =====
-- Paging through a dataset: `StreamRowsCtx` (internal/socrata/ext.go) and `StreamRows` (client.go).
-- A `limit` or `BatchSize` below 1 is 0 here; row counts stay below 2^63. `W` is the world that a
-- request and the page handler act on.
mod Examples
mod Cursors
mod Positions
pub mod Complete
pub mod Invariant
pub mod Plain
use Prim.Native.String
use civic_soda_quack.Prelude.{
  ℕ, zero, suc, ◌+◌, ◌-◌, String, Bool, true, false, ◌&&◌, Option, none, some, List, [], ◌∷◌,
  length, last?, Result, ok, err, ltb, leb, ◌==◌, str_eq, if◌then◌else◌,
}
use civic_soda_quack.Socrata.{Row, socrata_id_of, selects_socrata_id}

-- The query parameters of one request; `none` is a parameter that is not set.
pub record Query : Type 0 where
  pub limit : ℕ
  pub offset : Option ℕ
  pub order : Option String
  pub where_clause : Option String
  pub select : Option String

-- How a loop ends: by itself, on an error, or for want of fuel.
pub data Ending (E : Type 0) : Type 0 where
  finished : Ending E
  stopped : E → Ending E
  out_of_fuel : Ending E

-- What the callers pass.
pub record Request : Type 0 where
  pub order_by : String
  pub where_clause : String
  pub select : String
  pub limit : ℕ
  pub batch : ℕ  -- `Client.BatchSize`

-- `fetched`, `offset`, `useKeyset` and `lastID`.
pub record Cursor : Type 0 where
  pub fetched : ℕ
  pub offset : ℕ
  pub keyset : Bool
  pub last_id : String

pub batch_size : ℕ → ℕ
batch_size configured = if ltb 0 configured then configured else 5000

abbrev pub not_empty : String → Bool
not_empty s = if str_eq s "" then false else true

-- A parameter is set where its text is not empty.
pub if_set : String → Option String
if_set s = if str_eq s "" then none else some s

pub remaining : Request → Cursor → ℕ
unfolding batch_size
remaining r c =
    if ltb 0 r.limit && ltb (r.limit - c.fetched) (batch_size r.batch)
    then r.limit - c.fetched
    else batch_size r.batch

pub seek : String → String
seek id = String.◌++◌ ":id > '" (String.◌++◌ id "'")

pub seek_where : String → String → String
unfolding seek
seek_where base id =
    if str_eq base ""
    then seek id
    else String.◌++◌ "(" (String.◌++◌ base (String.◌++◌ ") AND " (seek id)))

-- The query of a round.
pub query : Request → Cursor → Query
query r c = record {
  limit = remaining r c;
  offset = if c.keyset then none else some c.offset;
  order = if_set r.order_by;
  where_clause = if_set (
      if c.keyset && not_empty c.last_id
      then seek_where r.where_clause c.last_id
      else r.where_clause);
  select = if_set r.select;
}

-- The key for the next round: the last row's, or `$offset` from here on.
rekey : Cursor → Option String → Cursor
rekey c none = record c { keyset = false }
rekey c (some id) = record c { last_id = id }

seek_on : {F : Type 0} → Cursor → Option (Row F) → Cursor
seek_on c none = c
seek_on c (some row) = rekey c (socrata_id_of row)

pub advance : {F : Type 0} → Cursor → List (Row F) → Cursor
advance c page =
    let moved = record c { fetched = c.fetched + length page; offset = c.offset + length page } in
    if c.keyset then seek_on moved (last? page) else moved

pub start : Request → Cursor
start r = record {
  fetched = 0;
  offset = 0;
  keyset = str_eq r.order_by ":id" && selects_socrata_id r.select;
  last_id = "";
}

-- What a round of a loop leaves: an ending, or the cursor of the next round.
pub data Round (E W : Type 0) : Type 0 where
  halt : Ending E → W → Round E W
  again : Cursor → W → Round E W

follow : {E W : Type 0} → (Cursor → W → Ending E × W) → Round E W → Ending E × W
follow k (halt e w) = (e, w)
follow k (again c w) = k c w

module _ {F E W : Type 0} (ctx_err : W → Option E)
    (get_page : Query → W → Result E (List (Row F)) × W)
    (handler : List (Row F) → W → Result E (Unit {0}) × W) (r : Request) where
  -- `if len(page) > 0 { handler(page) }`
  deliver : List (Row F) → W → Result E (Unit {0}) × W
  deliver [] w = (ok tt, w)
  deliver (row ∷ page) w = handler (row ∷ page) w

  after_handler : Cursor → List (Row F) → Result E (Unit {0}) → W → Round E W
  after_handler c page (err e) w = halt (stopped e) w
  after_handler c page (ok _) w =
      if ltb (length page) (remaining r c)
      then halt finished w
      else if ltb 0 r.limit && leb r.limit (advance c page).fetched
      then halt finished w
      else again (advance c page) w

  after_page : Cursor → Result E (List (Row F)) → W → Round E W
  unfolding deliver after_handler
  after_page c (err e) w = halt (stopped e) w
  after_page c (ok page) w = let (result, w') = deliver page w in after_handler c page result w'

  -- One round of the `for`.
  pub round : Cursor → W → Round E W
  unfolding after_page
  round c w = elim (ctx_err w) [
    | some e ↦ halt (stopped e) w
    | none ↦
        if remaining r c == 0
        then halt finished w
        else let (result, w') = get_page (query r c) w in after_page c result w'
  ]

  pub stream : ℕ → Cursor → W → Ending E × W
  unfolding follow
  stream zero c w = (out_of_fuel, w)
  stream (suc fuel) c w = follow (stream fuel) (round c w)

  pub stream_rows_ctx : ℕ → W → Ending E × W
  unfolding stream start
  stream_rows_ctx fuel w = stream fuel (start r) w
