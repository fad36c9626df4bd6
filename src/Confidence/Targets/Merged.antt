-- ===== src/Confidence/Targets/Merged.antt =====
-- That no dataset counts twice.
use civic_soda_quack.Prelude.{
  ◌≡◌, refl, inl, inr, String, Bool, true, false, ◌&&◌, ◌||◌, List, [], ◌∷◌, ◌++◌, any, eq_iff,
  arith, Bool-cases,
}
use civic_soda_quack.Confidence.Targets.{
  EvidenceTarget, same_dataset, has_column, union_columns, merge_into, merge_from, merge_by_dataset,
}

-- Some target of the list has this key.
abbrev pub holds : List EvidenceTarget → EvidenceTarget → Bool
holds ts t = any (λ s. same_dataset s t) ts

-- No key stands twice.
abbrev pub Apart : List EvidenceTarget → Type 0
Apart [] = Unit
Apart (t ∷ ts) = (holds ts t ≡ false) × Apart ts

same_dataset-left :
    (s t u : EvidenceTarget) → same_dataset s t ≡ true → same_dataset s u ≡ same_dataset t u
same_dataset-left s t u h =
    ground
      (arith, eq_iff s.portal t.portal, eq_iff s.dataset_id t.dataset_id, eq_iff s.table t.table)

same_dataset_comm : (s t : EvidenceTarget) → same_dataset s t ≡ same_dataset t s
same_dataset_comm s t = ground (
  arith,
  eq_iff s.portal t.portal,
  eq_iff s.dataset_id t.dataset_id,
  eq_iff s.table t.table,
  eq_iff t.portal s.portal,
  eq_iff t.dataset_id s.dataset_id,
  eq_iff t.table s.table,
)

-- Some target of this key reads the column.
abbrev pub reads : (String → String → Bool) → List EvidenceTarget → EvidenceTarget → String → Bool
reads equal_fold ts t c = any (λ s. same_dataset s t && has_column equal_fold s.columns c) ts

module _ (equal_fold : String → String → Bool) where
  merge_into-holds :
      (ss : List EvidenceTarget) (t u : EvidenceTarget)
      → holds (merge_into equal_fold ss t) u ≡ (holds ss u || same_dataset t u)
  unfolding merge_into
  merge_into-holds [] t u = ground arith
  merge_into-holds (s ∷ ss) t u = elim (Bool-cases (same_dataset s t)) [
    | inl y ↦ rw y (ground (arith, same_dataset-left s t u y))
    | inr z ↦ rw z (ground (arith, merge_into-holds ss t u))
  ]

  merge_into-Apart :
      (ss : List EvidenceTarget) (t : EvidenceTarget)
      → Apart ss
      → Apart (merge_into equal_fold ss t)
  unfolding merge_into
  merge_into-Apart [] t h = (refl, tt)
  merge_into-Apart (s ∷ ss) t h = elim (Bool-cases (same_dataset s t)) [
    | inl y ↦ rw y h
    | inr z ↦
        rw z (
          ground (arith, merge_into-holds ss t s, same_dataset_comm s t),
          merge_into-Apart ss t h.1,
        )
  ]

  module _
      (folds : (a b c : String)
        → equal_fold a b ≡ true
        → equal_fold b c ≡ true
        → equal_fold a c ≡ true) where
    has_column-fold :
        (cols : List String) (a c : String)
        → has_column equal_fold cols a ≡ true
        → equal_fold a c ≡ true
        → has_column equal_fold cols c ≡ true
    unfolding has_column
    has_column-fold [] a c h k = cc
    has_column-fold (x ∷ cols) a c h k = ground (arith, folds x a c, has_column-fold cols a c)

    has_column-snoc :
        (cols : List String) (a c : String)
        → has_column equal_fold (cols ++ a ∷ []) c
          ≡ (has_column equal_fold cols c || equal_fold a c)
    unfolding has_column
    has_column-snoc [] a c = ground arith
    has_column-snoc (x ∷ cols) a c = ground (arith, has_column-snoc cols a c)

    has_column-union :
        (cols cs : List String) (c : String)
        → has_column equal_fold (union_columns equal_fold cols cs) c
          ≡ (has_column equal_fold cols c || has_column equal_fold cs c)
    unfolding union_columns has_column
    has_column-union cols [] c = ground arith
    has_column-union cols (a ∷ cs) c = elim (Bool-cases (has_column equal_fold cols a)) [
      | inl y ↦ rw y (ground (arith, has_column-union cols cs c, has_column-fold cols a c))
      | inr z ↦
          rw z (ground (arith, has_column-union (cols ++ a ∷ []) cs c, has_column-snoc cols a c))
    ]

    merge_into-reads :
        (ss : List EvidenceTarget) (t u : EvidenceTarget) (c : String)
        → reads equal_fold (merge_into equal_fold ss t) u c
          ≡ (reads equal_fold ss u c || (same_dataset t u && has_column equal_fold t.columns c))
    unfolding merge_into
    merge_into-reads [] t u c = ground arith
    merge_into-reads (s ∷ ss) t u c = elim (Bool-cases (same_dataset s t)) [
      | inl y ↦
          rw y (ground (arith, same_dataset-left s t u y, has_column-union s.columns t.columns c))
      | inr z ↦ rw z (ground (arith, merge_into-reads ss t u c))
    ]

    merge_from-Merges :
        (out ts : List EvidenceTarget)
        → Apart out
        → Apart (merge_from equal_fold out ts)
          × ((u : EvidenceTarget)
              → holds (merge_from equal_fold out ts) u ≡ (holds out u || holds ts u))
          × ((u : EvidenceTarget) (c : String)
              → reads equal_fold (merge_from equal_fold out ts) u c
                ≡ (reads equal_fold out u c || reads equal_fold ts u c))
    unfolding merge_from
    merge_from-Merges out [] h = (h, (λ u. ground arith), (λ u c. ground arith))
    merge_from-Merges out (t ∷ ts) h =
        let (apart, held, read) =
          merge_from-Merges (merge_into equal_fold out t) ts (merge_into-Apart out t h) in
        (
          apart,
          λ u. ground (arith, held u, merge_into-holds out t u),
          λ u c. ground (arith, read u c, merge_into-reads out t u c),
        )

    -- No key twice, the same keys, and of every key the same columns.
    abbrev pub Merges : List EvidenceTarget → List EvidenceTarget → Type 0
    Merges ts merged =
        Apart merged
        × ((u : EvidenceTarget) → holds merged u ≡ holds ts u)
        × ((u : EvidenceTarget) (c : String)
            → reads equal_fold merged u c ≡ reads equal_fold ts u c)

    -- Where the equality of names up to case is transitive, the merged evidence targets have no
    -- two with the same portal, dataset and table, exactly the keys of the given targets, and for
    -- each key exactly the columns, up to case, that some given target of the key reads.
    pub merge_by_dataset-Merges :
        (ts : List EvidenceTarget) → Merges ts (merge_by_dataset equal_fold ts)
    unfolding merge_by_dataset
    merge_by_dataset-Merges [] = (tt, (λ u. refl), (λ u c. refl))
    merge_by_dataset-Merges (t ∷ []) = ((refl, tt), (λ u. refl), (λ u c. refl))
    merge_by_dataset-Merges (t ∷ u ∷ ts) = merge_from-Merges [] (t ∷ u ∷ ts) tt
