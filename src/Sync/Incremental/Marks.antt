-- ===== src/Sync/Incremental/Marks.antt =====
-- How the high-water mark moves.
use civic_soda_quack.Prelude.{
  ◌≤◌, ◌≡◌, refl, ◌∙◌, ◌⊎◌, inl, inr, String, Option, none, some, List, [], ◌∷◌, ltb, arith,
  Bool-cases,
}
use civic_soda_quack.Socrata.{Row}
use civic_soda_quack.Sync.Incremental.{Calls, extract_row_hwm, later_of, newest}

module _ {F T E W : Type 0} (calls : Calls F T E W) where
  -- `b` is no earlier mark than `a`: a mark stays set, and its instant does not fall.
  abbrev pub NotBefore : Option T → Option T → Type 0
  NotBefore none b = Unit
  NotBefore (some a) none = ⊥
  NotBefore (some a) (some b) = calls.instant a ≤ calls.instant b

  -- Every row that carries a mark is covered by `m`.
  abbrev pub Covers : String → Option T → List (Row F) → Type 0
  Covers column m [] = Unit
  Covers column m (row ∷ rows) =
      NotBefore (extract_row_hwm calls row column) m × Covers column m rows

  -- A mark is one that was there before or that a row carries.
  abbrev pub Among : String → Option T → List (Row F) → Option T → Type 0
  Among column m [] r = r ≡ m
  Among column m (row ∷ rows) r = (r ≡ extract_row_hwm calls row column) ⊎ Among column m rows r

  pub NotBefore-refl : (a : Option T) → NotBefore a a
  NotBefore-refl none = tt
  NotBefore-refl (some a) = omega arith

  pub NotBefore-trans : (a b c : Option T) → NotBefore a b → NotBefore b c → NotBefore a c
  NotBefore-trans none b c p q = tt
  NotBefore-trans (some a) none c p q = elim p [ ]
  NotBefore-trans (some a) (some b) none p q = q
  NotBefore-trans (some a) (some b) (some c) p q = omega arith

  later_of-NotBefore :
      (m t : Option T) → NotBefore m (later_of calls m t) × NotBefore t (later_of calls m t)
  unfolding later_of
  later_of-NotBefore m none = (NotBefore-refl m, tt)
  later_of-NotBefore none (some t) = (tt, NotBefore-refl (some t))
  later_of-NotBefore (some m) (some t) =
      elim (Bool-cases (ltb (calls.instant m) (calls.instant t))) [
        | inl y ↦ rw y (ground arith, omega arith)
        | inr z ↦ rw z (omega arith, ground arith)
      ]

  later_of_cases : (m t : Option T) → (later_of calls m t ≡ m) ⊎ (later_of calls m t ≡ t)
  unfolding later_of
  later_of_cases m none = inl refl
  later_of_cases none (some t) = inr refl
  later_of_cases (some m) (some t) = elim (Bool-cases (ltb (calls.instant m) (calls.instant t))) [
    | inl y ↦ inr (rw y refl)
    | inr z ↦ inl (rw z refl)
  ]

  newest-NotBefore :
      (column : String) (m : Option T) (rows : List (Row F))
      → NotBefore m (newest calls column m rows)
  unfolding newest
  newest-NotBefore column m [] = NotBefore-refl m
  newest-NotBefore column m (row ∷ rows) =
      let t = extract_row_hwm calls row column in
      NotBefore-trans m (later_of calls m t) _ (later_of-NotBefore m t).0
        (newest-NotBefore column (later_of calls m t) rows)

  Among-later :
      (column : String) (m t r : Option T) (rows : List (Row F))
      → Among column (later_of calls m t) rows r
      → (r ≡ t) ⊎ Among column m rows r
  Among-later column m t r [] h = elim (later_of_cases m t) [
    | inl e ↦ inr (h ∙ e)
    | inr e ↦ inl (h ∙ e)
  ]
  Among-later column m t r (row ∷ rows) (inl e) = inr (inl e)
  Among-later column m t r (row ∷ rows) (inr h) = elim (Among-later column m t r rows h) [
    | inl e ↦ inl e
    | inr k ↦ inr (inr k)
  ]

  -- The mark after a page is not earlier than before, not earlier than that of any row of the
  -- page, and is the mark from before or that of some row.
  pub newest-Covers :
      (column : String) (m : Option T) (rows : List (Row F))
      → NotBefore m (newest calls column m rows)
        × Covers column (newest calls column m rows) rows
        × Among column m rows (newest calls column m rows)
  unfolding newest
  newest-Covers column m [] = (NotBefore-refl m, tt, refl)
  newest-Covers column m (row ∷ rows) =
      let t = extract_row_hwm calls row column in
      let later = later_of calls m t in
      let (kept, covers, among) = newest-Covers column later rows in
      (
        newest-NotBefore column m (row ∷ rows),
        (NotBefore-trans t later _ (later_of-NotBefore m t).1 kept, covers),
        Among-later column m t _ rows among,
      )
