-- ===== src/Socrata/Stream/Positions.antt =====
-- Where a stream stands after some rows.
use native.Mathlib.Nat.{add-suc}
use civic_soda_quack.Prelude.{
  ℕ, zero, suc, ◌+◌, ◌≤◌, ◌<◌, ◌≡◌, sym, ap, ◌∙◌, ◌⊎◌, inl, inr, String, true, some, List, ◌++◌,
  append_assoc, length, take, drop, get_elem?, get_elem?_lt, length-take, length-drop, take_all,
  take-append-take, get_elem?-drop, last?-take, ltb, ltb→lt, arith, if◌then◌else◌, Bool-cases,
}
use civic_soda_quack.Socrata.{Row, socrata_id_of}
use civic_soda_quack.Socrata.Stream.{Request, Cursor, remaining, advance}
use civic_soda_quack.Socrata.Stream.Cursors.{advance_counts, advance_keyed}

-- The rows that a limit leaves; 0 is no limit.
abbrev pub up_to {ℓ} : {A : Type ℓ} → ℕ → List A → List A
up_to limit rows = if ltb 0 limit then take limit rows else rows

module _ {F : Type 0} (r : Request) (rows : List (Row F)) where
  -- The last row that was read carries the key.
  unfoldable pub KeyAt : ℕ → String → Type 0
  KeyAt zero id = id ≡ ""
  KeyAt (suc i) id = (row : Row F) × (get_elem? rows i ≡ some row) × (socrata_id_of row ≡ some id)

  -- `n` rows were read.
  pub record At (n : ℕ) (c : Cursor) : Type 0 where
    pub fetched_eq : c.fetched ≡ n
    pub offset_eq : c.offset ≡ n
    pub within : n ≤ length rows
    pub below : 0 < r.limit → n < r.limit
    pub keyed : c.keyset ≡ true → KeyAt n c.last_id

  pub remaining_bounds :
      (n : ℕ) (c : Cursor)
      → At n c
      → (0 < remaining r c) × (0 < r.limit → n + remaining r c ≤ r.limit)
  unfolding remaining
  remaining_bounds n c h = ground (arith, h.below)

  keyed_behind :
      (n k : ℕ) (c : Cursor)
      → n + suc k ≤ length rows
      → (advance c (take (suc k) (drop n rows))).keyset ≡ true
      → KeyAt (suc (n + k)) (advance c (take (suc k) (drop n rows))).last_id
  unfolding KeyAt
  keyed_behind n k c fits on =
      let (row, at) = get_elem?_lt (n + k) rows (omega arith) in
      let final =
        last?-take k (drop n rows) (omega (arith, length-drop n rows))
        ∙ get_elem?-drop n k rows
        ∙ at in
      (row, at, advance_keyed c (take (suc k) (drop n rows)) row final on)

  -- A full page moves the cursor behind it.
  pub advance-At :
      (n k : ℕ) (c : Cursor)
      → At n c
      → 0 < k
      → n + k ≤ length rows
      → (0 < r.limit → n + k < r.limit)
      → At (n + k) (advance c (take k (drop n rows)))
  advance-At n zero c h some_rows fits small = elim some_rows [ ]
  advance-At n (suc k) c h some_rows fits small =
      let page = take (suc k) (drop n rows) in
      let counts = advance_counts c page in
      let size : length page ≡ suc k =
        omega (arith, length-take (suc k) (drop n rows), length-drop n rows) in
      record {
        fetched_eq = omega (arith, counts.0);
        offset_eq = omega (arith, counts.1);
        within = fits;
        below = small;
        keyed = λ on. rw add-suc (keyed_behind n k c fits on);
      }

  -- Where the loop ends, everything asked for was read.
  pub final_rows :
      (n k : ℕ) (w : List (Row F))
      → (0 < r.limit → n + k ≤ r.limit)
      → ((length rows ≤ n + k) ⊎ ((0 < r.limit) × (r.limit ≤ n + k)))
      → w ++ take (n + k) rows ≡ w ++ up_to r.limit rows
  final_rows n k w cap done = elim (Bool-cases (ltb 0 r.limit)) [
    | inl y ↦ rw y (ap (λ t. w ++ t) (limited done (ltb→lt 0 r.limit y)))
    | inr o ↦ rw o (ap (λ t. w ++ t) (take_all (n + k) rows (ground arith)))
  ]
    where
      limited :
          (length rows ≤ n + k) ⊎ ((0 < r.limit) × (r.limit ≤ n + k))
          → 0 < r.limit
          → take (n + k) rows ≡ take r.limit rows
      limited (inl short) l =
          take_all (n + k) rows short ∙ sym (take_all r.limit rows (omega (arith, cap l)))
      limited (inr (l, reached)) _ = ap (λ t. take t rows) (omega (arith, cap l))

  pub join_page :
      (n k : ℕ) (w : List (Row F))
      → (w ++ take n rows) ++ take k (drop n rows) ≡ w ++ take (n + k) rows
  join_page n k w = append_assoc w (take n rows) _ ∙ ap (λ t. w ++ t) (take-append-take n k rows)
