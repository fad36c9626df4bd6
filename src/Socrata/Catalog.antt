-- ===== src/Socrata/Catalog.antt =====
-- The catalog of a portal: internal/socrata/catalog.go. `T` is time.Time, `parse` is time.Parse with
-- its layout first, `E` an error of a library; error texts are left out.
mod Examples
mod Paging
use civic_soda_quack.Prelude.{
  ℕ, zero, suc, ◌+◌, String, Bool, ◌||◌, Option, none, some, List, [], ◌∷◌, ◌++◌, length, map,
  Result, ok, err, ◌>>=◌, leb, ◌==◌, str_eq, if◌then◌else◌,
}
use civic_soda_quack.Socrata.Stream.{Ending}

pub record CatalogEntry (T : Type 0) : Type 0 where
  pub id : String
  pub name : String
  pub description : String
  pub category : String
  pub tags : List String
  pub updated_at : Option T

-- `rawCatalogEntry`, its two parts joined.
pub record RawCatalogEntry : Type 0 where
  pub id : String
  pub name : String
  pub description : String
  pub data_updated_at : String
  pub updated_at : String
  pub rows_updated_at : String
  pub domain_category : String
  pub domain_tags : List String

pub data CatalogError (E : Type 0) : Type 0 where
  request_failed : E → CatalogError E
  http_status : ℕ → CatalogError E
  decode_catalog : E → CatalogError E
  decode_entry : E → CatalogError E

abbrev pub catalog_timestamp_layouts : List String
catalog_timestamp_layouts =
    "2006-01-02T15:04:05.000Z" ∷ "2006-01-02T15:04:05.000" ∷ "2006-01-02T15:04:05Z"
    ∷ "2006-01-02T15:04:05" ∷ "2006-01-02T15:04:05Z07:00" ∷ []

-- The first answer of two.
abbrev pub or_else {ℓ} : {A : Type ℓ} → Option A → Option A → Option A
or_else (some a) o = some a
or_else none o = o

module _ {T : Type 0} (parse : String → String → Option T) where
  -- The inner loop, over the layouts.
  pub parse_any : List String → String → Option T
  parse_any [] s = none
  parse_any (layout ∷ layouts) s = or_else (parse layout s) (parse_any layouts s)

  pub parse_catalog_timestamp : List String → Option T
  parse_catalog_timestamp [] = none
  parse_catalog_timestamp (s ∷ candidates) =
      or_else (if str_eq s "" then none else parse_any catalog_timestamp_layouts s)
        (parse_catalog_timestamp candidates)

  pub entry_of : RawCatalogEntry → CatalogEntry T
  entry_of r = record {
    id = r.id;
    name = r.name;
    description = r.description;
    category = r.domain_category;
    tags = r.domain_tags;
    updated_at =
        parse_catalog_timestamp (r.data_updated_at ∷ r.updated_at ∷ r.rows_updated_at ∷ []);
  }

  -- `J` is a json.RawMessage.
  module _ {J E : Type 0} (decode_raw : J → Result E RawCatalogEntry) where
    entry_or_error : Result E RawCatalogEntry → Result (CatalogError E) (CatalogEntry T)
    entry_or_error (ok r) = ok (entry_of r)
    entry_or_error (err e) = err (decode_entry e)

    -- The loop over `cr.Results`.
    pub entries_of : List J → Result (CatalogError E) (List (CatalogEntry T))
    entries_of [] = ok []
    entries_of (j ∷ js) = do e ← entry_or_error (decode_raw j); es ← entries_of js; ok (e ∷ es)

    with_total : Result E (List J × ℕ) → Result (CatalogError E) (List (CatalogEntry T) × ℕ)
    with_total (ok (results, total)) = do entries ← entries_of results; ok (entries, total)
    with_total (err e) = err (decode_catalog e)

    -- A reply is the error of the exchange, or its status and its decoded body.
    pub get_catalog_page :
        Result E (ℕ × Result E (List J × ℕ)) → Result (CatalogError E) (List (CatalogEntry T) × ℕ)
    get_catalog_page (ok (status, body)) =
        if status == 200 then with_total body else err (http_status status)
    get_catalog_page (err e) = err (request_failed e)

-- `fetchCatalogScheme`: `get_page` takes the limit and the offset. The offset stays below 2^63.
module _ {A E W : Type 0} (get_page : ℕ → ℕ → W → Result E (List A × ℕ) × W) (page_size : ℕ) where
  abbrev Fetched : Type 0
  Fetched = Option (Result E (List A)) × W

  after_catalog_page : (List A → ℕ → W → Fetched) → List A → ℕ → Result E (List A × ℕ) → W → Fetched
  after_catalog_page k all offset (err e) w = (some (err e), w)
  after_catalog_page k all offset (ok (page, total)) w =
      if length page == 0 || leb total (offset + length page)
      then (some (ok (all ++ page)), w)
      else k (all ++ page) (offset + length page) w

  -- `none` is for want of fuel.
  pub fetch_from : ℕ → List A → ℕ → W → Fetched
  fetch_from zero all offset w = (none, w)
  fetch_from (suc fuel) all offset w =
      let (result, w') = get_page page_size offset w in
      after_catalog_page (fetch_from fuel) all offset result w'

  pub fetch_catalog : ℕ → W → Fetched
  fetch_catalog fuel w = fetch_from fuel [] 0 w
