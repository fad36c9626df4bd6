-- ===== src/Snapshot/Index/Newest.antt =====
-- What an index keeps.
use civic_soda_quack.Prelude.{
  ℕ, suc, ◌+◌, ◌≡◌, ◌↔◌, refl, sym, ap, ◌∙◌, String, Bool, List, [], ◌∷◌, All, length, take, arith,
}
use civic_soda_quack.Prelude.Int.{ℤ, pos}
use civic_soda_quack.Prelude.Sorts.{
  stable_sort, IsOrder, IsSorted, stable_sort-All, stable_sort-IsSorted, stable_sort-length,
}
use civic_soda_quack.Prelude.Sorts.Places.{stable_sort-place, take-place, IsSorted-take}
use civic_soda_quack.Snapshot.Index.{IndexEntry, Index, is_newer, add}

module _ {T : Type 0} (newer : String → String → Bool) where
  -- Entries added one after the other, the last one first in the list.
  pub add_all : ℤ → Index T → List (IndexEntry T) → Index T
  unfolding add
  add_all max_keep i [] = i
  add_all max_keep i (e ∷ es) = add newer e max_keep (add_all max_keep i es)

  -- The same index, with the snapshots that a limit leaves.
  abbrev pub bounded : ℕ → Index T → Index T
  bounded n i = record i { snapshots = take n i.snapshots }

  module _ (order : IsOrder (is_newer {T = T} newer)) where
    add_all-IsSorted :
        (i : Index T) (es : List (IndexEntry T))
        → IsSorted (is_newer newer) i.snapshots
        → IsSorted (is_newer newer) (add_all (pos 0) i es).snapshots
    unfolding add_all add
    add_all-IsSorted i [] h = h
    add_all-IsSorted i (e ∷ es) h =
        stable_sort-IsSorted (is_newer newer) order (e ∷ (add_all (pos 0) i es).snapshots)

    take-stable_sort :
        (n : ℕ) (e : IndexEntry T) (ys : List (IndexEntry T))
        → IsSorted (is_newer newer) ys
        → take n (stable_sort (is_newer newer) (e ∷ take n ys))
          ≡ take n (stable_sort (is_newer newer) (e ∷ ys))
    take-stable_sort n e ys h =
        ap (take n) (
          stable_sort-place (is_newer newer) order e (take n ys)
            (IsSorted-take (is_newer newer) n ys h))
        ∙ sym (take-place (is_newer newer) n e ys)
        ∙ ap (take n) (sym (stable_sort-place (is_newer newer) order e ys h))

    add-bounded :
        (n : ℕ) (e : IndexEntry T) (i : Index T)
        → IsSorted (is_newer newer) i.snapshots
        → add newer e (pos (suc n)) (bounded (suc n) i) ≡ bounded (suc n) (add newer e (pos 0) i)
    unfolding add
    add-bounded n e i h =
        ap (λ s. let r : Index T = record i { snapshots = s } in r)
          (take-stable_sort (suc n) e i.snapshots h)

    -- What the index holds without a limit.
    add_all-All :
        (P : IndexEntry T → Type 0) (i : Index T) (es : List (IndexEntry T))
        → All P (add_all (pos 0) i es).snapshots ↔ (All P es × All P i.snapshots)
    unfolding add_all add
    add_all-All P i [] = ((λ a. (tt, a)), (λ a. a.1))
    add_all-All P i (e ∷ es) =
        let s = stable_sort-All (is_newer newer) P (e ∷ (add_all (pos 0) i es).snapshots) in
        let r = add_all-All P i es in
        (
          (λ a. let b = s.0 a in ((b.0, (r.0 b.1).0), (r.0 b.1).1)),
          (λ a. s.1 (a.0.0, r.1 (a.0.1, a.1))),
        )

    add_all-length :
        (i : Index T) (es : List (IndexEntry T))
        → length (add_all (pos 0) i es).snapshots ≡ length es + length i.snapshots
    unfolding add_all add
    add_all-length i [] = omega arith
    add_all-length i (e ∷ es) = omega (
      arith,
      stable_sort-length (is_newer newer) (e ∷ (add_all (pos 0) i es).snapshots),
      add_all-length i es,
    )

    add_all-bounded :
        (n : ℕ) (i : Index T) (es : List (IndexEntry T))
        → IsSorted (is_newer newer) i.snapshots
        → add_all (pos (suc n)) (bounded (suc n) i) es ≡ bounded (suc n) (add_all (pos 0) i es)
    unfolding add_all
    add_all-bounded n i [] h = refl
    add_all-bounded n i (e ∷ es) h =
        ap (add newer e (pos (suc n))) (add_all-bounded n i es h)
        ∙ add-bounded n e (add_all (pos 0) i es) (add_all-IsSorted i es h)

    -- For an order of the snapshot ids that is a strict weak order, and from a sorted index, a
    -- bounded index that any entries are added to is the one without a bound cut to its first
    -- entries; the one without a bound is sorted, newest first, and holds the added entries and
    -- the old ones, each once. So what is cut off on the way never would have been kept.
    pub add_all-Refines :
        (n : ℕ) (i : Index T) (es : List (IndexEntry T))
        → IsSorted (is_newer newer) i.snapshots
        → (add_all (pos (suc n)) (bounded (suc n) i) es ≡ bounded (suc n) (add_all (pos 0) i es))
          × IsSorted (is_newer newer) (add_all (pos 0) i es).snapshots
          × (length (add_all (pos 0) i es).snapshots ≡ length es + length i.snapshots)
          × ((P : IndexEntry T → Type 0)
              → All P (add_all (pos 0) i es).snapshots ↔ (All P es × All P i.snapshots))
    add_all-Refines n i es h = (
      add_all-bounded n i es h,
      add_all-IsSorted i es h,
      add_all-length i es,
      λ P. add_all-All P i es,
    )
