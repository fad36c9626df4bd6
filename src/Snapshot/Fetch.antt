-- ===== src/Snapshot/Fetch.antt =====
-- The download of a snapshot: Fetch of internal/snapshot/consumer.go. The files are a function of their
-- path; `B` is a content. What the archive holds and what the calls on the written file give are
-- parameters. The times and counts of a manifest are left out.
pub mod Verified
use civic_soda_quack.Prelude.{
  ℕ, String, Bool, true, false, ◌&&◌, ◌||◌, not, Option, none, some, List, [], ◌∷◌, Result, ok, err,
  str_eq, if◌then◌else◌,
}
use civic_soda_quack.Prelude.Int.{ℤ, pos, eqb_ℤ}

pub record Manifest : Type 0 where
  pub schema_version : ℤ
  pub portal : String
  pub snapshot_id : String
  pub duckdb_filename : String
  pub duckdb_sha256 : String
  pub duckdb_size_bytes : ℤ

-- A tar header with the bytes behind it.
pub record Entry (B : Type 0) : Type 0 where
  pub name : String
  pub size : ℤ
  pub body : B

pub record ConsumerOptions : Type 0 where
  pub url : String
  pub output_path : String
  pub no_verify : Bool
  pub force : Bool

pub data FetchError : Type 0 where
  not_opened not_decoded no_first_entry unexpected_first not_read not_parsed : String → FetchError
  unsupported_schema : ℤ → FetchError
  unsafe_filename already_exists no_payload unexpected_payload : String → FetchError
  size_mismatch written_mismatch : ℤ → ℤ → FetchError
  not_created not_written not_closed : String → FetchError
  sha256_mismatch : String → String → FetchError

-- What the calls give: the archive and its entries, the manifest in a body, and of the written file the
-- error of os.Create, what io.Copy wrote and its error, that of Close, and whether os.Remove works.
pub record Source (B : Type 0) : Type 0 where
  pub opened : Option FetchError
  pub first : Result String (Entry B)
  pub read : B → Result String B
  pub parse : B → Result String Manifest
  pub payload : Result String (Entry B)
  pub created : Option String
  pub empty : B
  pub copied : B → B × Option String
  pub closed : Option String
  pub removes : Bool
  pub size_of : B → ℤ
  pub sha256 : B → String
  pub clean : String → String
  pub base : String → String

abbrev pub Files : Type 0 → Type 0
Files B = String → Option B

abbrev pub out_path : ConsumerOptions → Manifest → String
out_path opts m = if str_eq opts.output_path "" then m.duckdb_filename else opts.output_path

module _ {B : Type 0} where
  abbrev pub change : String → Option B → Files B → Files B
  change path content files = λ p. if str_eq p path then content else files p

abbrev pub is_some : {A : Type 0} → Option A → Bool
is_some none = false
is_some (some a) = true

module _ {B : Type 0} (src : Source B) where
  -- `isSafeFilename`
  pub is_safe_filename : String → Bool
  is_safe_filename name =
      if str_eq name "" || str_eq name "." || str_eq name ".."
      then false
      else if not (str_eq (src.clean name) name)
      then false
      else str_eq (src.base name) name

  -- The checks of `writeWithSHA` on what was written.
  pub check_written : Manifest → Bool → B → Option FetchError
  check_written m no_verify b =
      if not (eqb_ℤ (src.size_of b) m.duckdb_size_bytes)
      then some (written_mismatch (src.size_of b) m.duckdb_size_bytes)
      else if not no_verify && not (str_eq (src.sha256 b) m.duckdb_sha256)
      then some (sha256_mismatch (src.sha256 b) m.duckdb_sha256)
      else none

  -- Behind the copy.
  pub close_written : Manifest → Bool → B × Option String → Option String → Option FetchError
  unfolding check_written
  close_written m no_verify (b, some e) closed = some (not_written e)
  close_written m no_verify (b, none) (some e) = some (not_closed e)
  close_written m no_verify (b, none) none = check_written m no_verify b

  -- `writeWithSHA`, of the error of os.Create.
  pub write_with_sha :
      String → B → Manifest → Bool → Option String → Files B → Option FetchError × Files B
  unfolding close_written
  write_with_sha out body m no_verify (some e) files = (some (not_created e), files)
  write_with_sha out body m no_verify none files = (
    close_written m no_verify (src.copied body) src.closed,
    change out (some (src.copied body).0) files,
  )

  -- The end of `Fetch`: what was written badly is removed.
  pub settle :
      String → Manifest → Option FetchError × Files B → Result FetchError Manifest × Files B
  settle out m (none, files) = (ok m, files)
  settle out m (some e, files) = (err e, if src.removes then change out none files else files)

  pub write_payload :
      ConsumerOptions
      → String
      → Manifest
      → Result String (Entry B)
      → Files B
      → Result FetchError Manifest × Files B
  unfolding write_with_sha settle
  write_payload opts out m (err e) files = (err (no_payload e), files)
  write_payload opts out m (ok entry) files =
      if not (str_eq entry.name m.duckdb_filename)
      then (err (unexpected_payload entry.name), files)
      else if not (eqb_ℤ entry.size m.duckdb_size_bytes)
      then (err (size_mismatch entry.size m.duckdb_size_bytes), files)
      else settle out m (write_with_sha out entry.body m opts.no_verify src.created files)

  -- With a manifest.
  pub with_manifest :
      ConsumerOptions → Result String Manifest → Files B → Result FetchError Manifest × Files B
  unfolding write_payload is_safe_filename
  with_manifest opts (err e) files = (err (not_parsed e), files)
  with_manifest opts (ok m) files =
      if not (eqb_ℤ m.schema_version (pos 1))
      then (err (unsupported_schema m.schema_version), files)
      else if not (is_safe_filename m.duckdb_filename)
      then (err (unsafe_filename m.duckdb_filename), files)
      else if not opts.force && is_some (files (out_path opts m))
      then (err (already_exists (out_path opts m)), files)
      else write_payload opts (out_path opts m) m src.payload files

  abbrev pub with_bytes :
      ConsumerOptions → Result String B → Files B → Result FetchError Manifest × Files B
  with_bytes opts (err e) files = (err (not_read e), files)
  with_bytes opts (ok b) files = with_manifest opts (src.parse b) files

  abbrev pub with_first :
      ConsumerOptions → Result String (Entry B) → Files B → Result FetchError Manifest × Files B
  with_first opts (err e) files = (err (no_first_entry e), files)
  with_first opts (ok entry) files =
      if not (str_eq entry.name "manifest.json")
      then (err (unexpected_first entry.name), files)
      else with_bytes opts (src.read entry.body) files

  abbrev pub fetch_opened :
      ConsumerOptions → Option FetchError → Files B → Result FetchError Manifest × Files B
  fetch_opened opts (some e) files = (err e, files)
  fetch_opened opts none files = with_first opts src.first files

  -- `Fetch`
  pub fetch : ConsumerOptions → Files B → Result FetchError Manifest × Files B
  unfolding with_manifest
  fetch opts files = fetch_opened opts src.opened files
