-- ===== src/Snapshot/Examples.antt =====
-- An index whose ids are ordered by their length, and an archive over numbers for contents.
use Prim.Native.String.{len}
use civic_soda_quack.Prelude.{
  ℕ, ◌≡◌, ◌↔◌, String, Bool, true, false, none, [], ◌∷◌, All, ok, ltb, length, arith,
}
use civic_soda_quack.Prelude.Int.{pos}
use civic_soda_quack.Prelude.Sorts.{IsOrder, IsSorted}
use civic_soda_quack.Snapshot.Index.{IndexEntry, Index, is_newer}
use civic_soda_quack.Snapshot.Index.Newest.{add_all, bounded, add_all-Refines}
use civic_soda_quack.Snapshot.Fetch.{Manifest, ConsumerOptions, Source, fetch}
use civic_soda_quack.Snapshot.Fetch.Verified.{Leaves, fetch-Leaves}

abbrev longer : String → String → Bool
longer a b = ltb (len b) (len a)

longer_asym : (a b : IndexEntry ℕ) → is_newer longer a b ≡ true → is_newer longer b a ≡ false
longer_asym a b h = ground arith

longer_trans :
    (a b c : IndexEntry ℕ)
    → is_newer longer b a ≡ false
    → is_newer longer c b ≡ false
    → is_newer longer c a ≡ false
longer_trans a b c h k = ground arith

longer_order : IsOrder (is_newer {T = ℕ} longer)
longer_order = record { asym = longer_asym; trans = longer_trans }

abbrev entry : String → IndexEntry ℕ
entry id = record {
  snapshot_id = id;
  created_at = 1;
  url = "https://example.org/s";
  size_bytes = pos 9;
  sha256 = "e3b0";
}

abbrev one_entry : Index ℕ
one_entry = record {
  schema_version = pos 1;
  portal = "data.springfield.gov";
  snapshots = entry "001" ∷ [];
}

add_all-Refines_example :
    let added = add_all {T = ℕ} longer (pos 0) one_entry (entry "01" ∷ entry "00003" ∷ []) in
    (add_all longer (pos 2) (bounded longer 2 one_entry) (entry "01" ∷ entry "00003" ∷ [])
      ≡ bounded longer 2 added)
    × IsSorted (is_newer longer) added.snapshots
    × (length added.snapshots ≡ 3)
    × ((P : IndexEntry ℕ → Type 0)
        → All P added.snapshots
          ↔ (All P (entry "01" ∷ entry "00003" ∷ []) × All P (entry "001" ∷ [])))
add_all-Refines_example =
    add_all-Refines longer longer_order 1 one_entry (entry "01" ∷ entry "00003" ∷ []) (tt, tt)

abbrev small_manifest : Manifest
small_manifest = record {
  schema_version = pos 1;
  portal = "data.springfield.gov";
  snapshot_id = "001";
  duckdb_filename = "springfield.duckdb";
  duckdb_sha256 = "e3b0";
  duckdb_size_bytes = pos 9;
}

abbrev small_source : Source ℕ
small_source = record {
  opened = none;
  first = ok (record { name = "manifest.json"; size = pos 2; body = 0 });
  read = λ b. ok b;
  parse = λ b. ok small_manifest;
  payload = ok (record { name = "springfield.duckdb"; size = pos 9; body = 9 });
  created = none;
  empty = 0;
  copied = λ b. (b, none);
  closed = none;
  removes = true;
  size_of = λ b. pos b;
  sha256 = λ b. "e3b0";
  clean = λ s. s;
  base = λ s. s;
}

abbrev plain_options : ConsumerOptions
plain_options = record { url = "file:///s"; output_path = ""; no_verify = false; force = false }

fetch-Leaves_example :
    Leaves small_source plain_options (λ p. none) (fetch small_source plain_options (λ p. none))
fetch-Leaves_example = fetch-Leaves small_source plain_options (λ p. none)
