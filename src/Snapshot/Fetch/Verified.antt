-- ===== src/Snapshot/Fetch/Verified.antt =====
-- What a download leaves behind.
use civic_soda_quack.Prelude.{
  ◌≡◌, ◌⊎◌, refl, inl, inr, String, Bool, true, false, ◌&&◌, not, Option, none, some, Result, ok,
  err, str_eq, eq_refl, arith, Bool-cases,
}
use civic_soda_quack.Prelude.Int.{pos, eqb_ℤ, eqb_ℤ→eq}
use civic_soda_quack.Snapshot.Fetch.{
  Manifest, Entry, ConsumerOptions, FetchError, not_created, Source, Files, change, is_some,
  is_safe_filename, check_written, close_written, write_with_sha, settle, write_payload, out_path,
  with_manifest, with_bytes, with_first, fetch_opened, fetch,
}

module _ {B : Type 0} (src : Source B) where
  -- The content that the manifest describes.
  abbrev pub IsContent : Manifest → Bool → B → Type 0
  IsContent m no_verify b =
      (src.size_of b ≡ m.duckdb_size_bytes)
      × ((no_verify ≡ true) ⊎ (str_eq (src.sha256 b) m.duckdb_sha256 ≡ true))

  -- A path is free, unless it may be overwritten.
  abbrev pub MayWrite : ConsumerOptions → Files B → String → Type 0
  MayWrite opts before out = (opts.force ≡ true) ⊎ (is_some (before out) ≡ false)

  abbrev pub OthersSame : String → Files B → Files B → Type 0
  OthersSame out before after = (p : String) → str_eq p out ≡ false → after p ≡ before p

  -- A good download leaves the content of a safe manifest at its path; a bad one leaves the files
  -- alone, or nothing at a path that it was allowed to write, or what is there if it cannot be removed.
  abbrev pub Leaves : ConsumerOptions → Files B → Result FetchError Manifest × Files B → Type 0
  Leaves opts before (ok m, after) =
      (b : B) × (after (out_path opts m) ≡ some b)
      × IsContent m opts.no_verify b
      × (is_safe_filename src m.duckdb_filename ≡ true)
      × (m.schema_version ≡ pos 1)
      × MayWrite opts before (out_path opts m)
      × OthersSame (out_path opts m) before after
  Leaves opts before (err e, after) =
      ((p : String) → after p ≡ before p)
      ⊎ ((out : String) × MayWrite opts before out
          × OthersSame out before after
          × ((src.removes ≡ true) → after out ≡ none))

  check_written-IsContent :
      (m : Manifest) (no_verify : Bool) (b : B)
      → check_written src m no_verify b ≡ none
      → IsContent m no_verify b
  unfolding check_written
  check_written-IsContent m no_verify b h =
      ground (arith, eqb_ℤ→eq (src.size_of b) m.duckdb_size_bytes)

  close_written-IsContent :
      (m : Manifest) (no_verify : Bool) (w : B × Option String) (closed : Option String)
      → close_written src m no_verify w closed ≡ none
      → IsContent m no_verify w.0
  unfolding close_written
  close_written-IsContent m no_verify (b, some e) closed h = cc
  close_written-IsContent m no_verify (b, none) (some e) h = cc
  close_written-IsContent m no_verify (b, none) none h = check_written-IsContent m no_verify b h

  module _ (opts : ConsumerOptions) (before : Files B) (m : Manifest)
      (safe : is_safe_filename src m.duckdb_filename ≡ true) (version : m.schema_version ≡ pos 1)
      (may : MayWrite opts before (out_path opts m)) where
    settle-Leaves :
        (b : B) (o : Option FetchError)
        → (o ≡ none → IsContent m opts.no_verify b)
        → Leaves opts before
            (settle src (out_path opts m) m (o, change (out_path opts m) (some b) before))
    unfolding settle
    settle-Leaves b none h =
        (b, rw (eq_refl (out_path opts m)) refl, h refl, safe, version, may, λ p e. rw e refl)
    settle-Leaves b (some e) h = elim (Bool-cases src.removes) [
      | inl y ↦ rw y (
          inr
            (out_path opts m, may, (λ p e. rw e refl), (λ r. rw (eq_refl (out_path opts m)) refl)))
      | inr z ↦ rw z (inr (out_path opts m, may, (λ p e. rw e refl), (λ r. cc)))
    ]

    not_created-Leaves :
        (e : FetchError) → Leaves opts before (settle src (out_path opts m) m (some e, before))
    unfolding settle
    not_created-Leaves e = elim (Bool-cases src.removes) [
      | inl y ↦ rw y (
          inr
            (out_path opts m, may, (λ p e. rw e refl), (λ r. rw (eq_refl (out_path opts m)) refl)))
      | inr z ↦ rw z (inl (λ p. refl))
    ]

    written-Leaves :
        (body : B) (created : Option String)
        → Leaves opts before (
            settle src
              (out_path opts m)
              m
              (write_with_sha src (out_path opts m) body m opts.no_verify created before))
    unfolding write_with_sha
    written-Leaves body (some e) = not_created-Leaves (not_created e)
    written-Leaves body none =
        settle-Leaves (src.copied body).0
          (close_written src m opts.no_verify (src.copied body) src.closed)
          (close_written-IsContent m opts.no_verify (src.copied body) src.closed)

    write_payload-Leaves :
        (payload : Result String (Entry B))
        → Leaves opts before (write_payload src opts (out_path opts m) m payload before)
    unfolding write_payload
    write_payload-Leaves (err e) = inl (λ p. refl)
    write_payload-Leaves (ok entry) = elim (Bool-cases (str_eq entry.name m.duckdb_filename)) [
      | inr z ↦ rw z (inl (λ p. refl))
      | inl y ↦ rw y (elim (Bool-cases (eqb_ℤ entry.size m.duckdb_size_bytes)) [
        | inr z ↦ rw z (inl (λ p. refl))
        | inl w ↦ rw w (written-Leaves entry.body src.created)
      ])
    ]

  may_write :
      (opts : ConsumerOptions) (before : Files B) (out : String)
      → (not opts.force && is_some (before out)) ≡ false
      → MayWrite opts before out
  may_write opts before out h = elim (Bool-cases opts.force) [
    | inl y ↦ inl y
    | inr z ↦ inr (ground arith)
  ]

  with_manifest-Leaves :
      (opts : ConsumerOptions) (m : Result String Manifest) (before : Files B)
      → Leaves opts before (with_manifest src opts m before)
  unfolding with_manifest
  with_manifest-Leaves opts (err e) before = inl (λ p. refl)
  with_manifest-Leaves opts (ok m) before = elim (Bool-cases (eqb_ℤ m.schema_version (pos 1))) [
    | inr z ↦ rw z (inl (λ p. refl))
    | inl v ↦ rw v (elim (Bool-cases (is_safe_filename src m.duckdb_filename)) [
      | inr z ↦ rw z (inl (λ p. refl))
      | inl s ↦ rw s (elim (Bool-cases (not opts.force && is_some (before (out_path opts m)))) [
        | inl y ↦ rw y (inl (λ p. refl))
        | inr z ↦ rw z (
            write_payload-Leaves opts before m s (eqb_ℤ→eq m.schema_version (pos 1) v)
              (may_write opts before (out_path opts m) z) src.payload)
      ])
    ])
  ]

  with_first-Leaves :
      (opts : ConsumerOptions) (first : Result String (Entry B)) (before : Files B)
      → Leaves opts before (with_first src opts first before)
  with_first-Leaves opts (err e) before = inl (λ p. refl)
  with_first-Leaves opts (ok entry) before = elim (Bool-cases (str_eq entry.name "manifest.json")) [
    | inr z ↦ rw z (inl (λ p. refl))
    | inl y ↦ rw y (with_bytes-Leaves opts (src.read entry.body) before)
  ]
    where
      with_bytes-Leaves :
          (opts : ConsumerOptions) (bytes : Result String B) (before : Files B)
          → Leaves opts before (with_bytes src opts bytes before)
      with_bytes-Leaves opts (err e) before = inl (λ p. refl)
      with_bytes-Leaves opts (ok b) before = with_manifest-Leaves opts (src.parse b) before

  opened-Leaves :
      (opts : ConsumerOptions) (opened : Option FetchError) (before : Files B)
      → Leaves opts before (fetch_opened src opts opened before)
  opened-Leaves opts (some e) before = inl (λ p. refl)
  opened-Leaves opts none before = with_first-Leaves opts src.first before

  -- A download that reports no error leaves at its path, which it was allowed to write, content of
  -- the size that the manifest says and, unless verification is off, with its hash, from a
  -- manifest of schema 1 with a safe file name, and leaves every other file as it was. One that
  -- reports an error leaves every file as it was, or changed only the file at a path that it was
  -- allowed to write, which is gone if files can be removed.
  pub fetch-Leaves :
      (opts : ConsumerOptions) (before : Files B) → Leaves opts before (fetch src opts before)
  unfolding fetch
  fetch-Leaves opts before = opened-Leaves opts src.opened before
