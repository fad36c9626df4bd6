-- ===== src/Confidence/Targets.antt =====
-- Which datasets and columns a query reads: internal/confidence/targets.go. A target keeps what tells
-- it apart and its columns; two have one key where portal, dataset and table agree, which is what the
-- key of the source says of texts without the byte 0 that it joins them with.
pub mod Merged
mod Examples
use civic_soda_quack.Prelude.{
  ℕ, String, str_append, Bool, true, false, ◌&&◌, ◌||◌, not, Option, none, some, List, [], ◌∷◌,
  ◌++◌, str_eq, if◌then◌else◌,
}
use civic_soda_quack.Prelude.Maps.{get}
use civic_soda_quack.Modes.{Query, Concept, BoundDataset, Binding, Mode, Strings, find_concept}
use civic_soda_quack.Modes.Concepts.{column_for, is_some, reads_column, concept_refs}

-- `Target`
pub record EvidenceTarget : Type 0 where
  pub portal : String
  pub table : String
  pub dataset_id : String
  pub columns : List String

abbrev pub same_dataset : EvidenceTarget → EvidenceTarget → Bool
same_dataset s t =
    str_eq s.portal t.portal && str_eq s.dataset_id t.dataset_id && str_eq s.table t.table

module _ (equal_fold : String → String → Bool) where
  -- `hasColumn`
  pub has_column : List String → String → Bool
  has_column [] c = false
  has_column (existing ∷ cols) c = equal_fold existing c || has_column cols c

  -- The columns of a later target go behind those that are there.
  pub union_columns : List String → List String → List String
  unfolding has_column
  union_columns cols [] = cols
  union_columns cols (c ∷ cs) =
      union_columns (if has_column cols c then cols else cols ++ c ∷ []) cs

  -- A target goes into the one with its key, or else to the end.
  pub merge_into : List EvidenceTarget → EvidenceTarget → List EvidenceTarget
  unfolding union_columns
  merge_into [] t = t ∷ []
  merge_into (s ∷ ss) t =
      let rest = merge_into ss t in
      if same_dataset s t
      then record s { columns = union_columns s.columns t.columns } ∷ ss
      else s ∷ rest

  pub merge_from : List EvidenceTarget → List EvidenceTarget → List EvidenceTarget
  unfolding merge_into
  merge_from out [] = out
  merge_from out (t ∷ ts) = merge_from (merge_into out t) ts

  -- `mergeByDataset`
  pub merge_by_dataset : List EvidenceTarget → List EvidenceTarget
  unfolding merge_from
  merge_by_dataset [] = []
  merge_by_dataset (t ∷ []) = t ∷ []
  merge_by_dataset (t ∷ u ∷ ts) = merge_from [] (t ∷ u ∷ ts)

module _ (st : Strings) where
  pub read_columns : Query → BoundDataset → List String → List String
  read_columns q bd [] = []
  read_columns q bd (col ∷ cols) =
      let rest = read_columns q bd cols in
      if reads_column st q.sql col && is_some (column_for bd col) then col ∷ rest else rest

  pub target_for : Query → String → Option BoundDataset → Option Concept → List EvidenceTarget
  unfolding read_columns
  target_for q alias none c = []
  target_for q alias (some bd) none = []
  target_for q alias (some bd) (some c) =
      record {
        portal = alias;
        table = bd.table;
        dataset_id = bd.id;
        columns = read_columns q bd (c.required ++ c.optional);
      }
      ∷ []

  pub targets_from : Mode → Query → String → Binding → List String → List EvidenceTarget
  unfolding target_for
  targets_from m q alias b [] = []
  targets_from m q alias b (name ∷ names) =
      target_for q alias (get name b.concepts) (find_concept m.concepts name)
      ++ targets_from m q alias b names

  -- `TargetsFor`, of a mode and a binding that are not nil.
  pub targets_for : (String → String → Bool) → Mode → Query → String → Binding → List EvidenceTarget
  unfolding targets_from merge_by_dataset
  targets_for equal_fold m q alias b =
      merge_by_dataset equal_fold (targets_from m q alias b (concept_refs st q.sql))
