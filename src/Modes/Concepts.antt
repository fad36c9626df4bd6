-- ===== src/Modes/Concepts.antt =====
-- What a query reads and whether a portal can answer it: internal/modes/concepts.go.
pub mod Uses
pub mod Answers
pub mod Refs
use Prim.Native.String.{len}
use civic_soda_quack.Prelude.{
  ℕ, zero, suc, String, str_append, Bool, true, false, ◌&&◌, ◌||◌, not, Option, none, some, List,
  [], ◌∷◌, ◌++◌, map, Result, ok, err, ◌>>=◌, str_eq, if◌then◌else◌, ltb, ◌==◌, length, leb,
}
use civic_soda_quack.Prelude.Int.{ℤ, pos, leb_ℤ}
use civic_soda_quack.Prelude.Maps.{get}
use civic_soda_quack.Prelude.Texts.{add_trimmed, join}
use civic_soda_quack.Personal.{bytes}
use civic_soda_quack.Personal.Search.{index, first_byte, last_byte}
use civic_soda_quack.Modes.{Query, Concept, BoundDataset, Binding, Mode, Strings, find_concept}

-- `ColumnFor`
pub column_for : BoundDataset → String → Option String
column_for bd col = elim bd.columns [ [] ↦ some col | c ∷ cs ↦ get col (c ∷ cs) ]

abbrev pub is_some : {A : Type 0} → Option A → Bool
is_some none = false
is_some (some a) = true

-- `isIdentByte` of this package: without the dollar sign.
unfoldable pub is_ident : ℕ → Bool
is_ident b =
    b == b'_'
    || (leb b'a' b && leb b b'z')
    || (leb b'A' b && leb b b'Z')
    || (leb b'0' b && leb b b'9')

abbrev pub no_ident_at : Option ℕ → Bool
no_ident_at none = true
no_ident_at (some b) = not (is_ident b)

-- The loop of `queryUsesColumn` from some byte on, where `before` is the byte in front. `none` where
-- the fuel is used up.
pub uses_from : ℕ → List ℕ → Option ℕ → List ℕ → Option Bool
unfolding is_ident
uses_from zero target before s = none
uses_from (suc fuel) target before s = elim (index target s) [
  | none ↦ some false
  | some (pre, post) ↦
      if no_ident_at (last_byte before pre) && no_ident_at (first_byte post)
      then some true
      else uses_from fuel target (last_byte (last_byte before pre) target) post
]

module _ (st : Strings) where
  -- `queryUsesColumn`
  pub uses_column : String → String → Option Bool
  unfolding uses_from
  uses_column sql col =
      uses_from (suc (length (bytes (st.lower sql)))) (bytes (st.lower col)) none
        (bytes (st.lower sql))

  -- A column for which the search of the source does not end, an empty one, counts as not read.
  abbrev pub reads_column : String → String → Bool
  reads_column sql col = elim (uses_column sql col) [ none ↦ false | some b ↦ b ]

  -- The loop of `conceptRefs`.
  pub refs_from : ℕ → List String → String → List String
  refs_from zero out rest = out
  refs_from (suc fuel) out rest = elim (st.cut rest "{{c:") [
    | none ↦ out
    | some (a, behind) ↦ elim (st.cut behind "}}") [
      | none ↦ out
      | some (name, after) ↦ refs_from fuel (add_trimmed st.trim name out) after
    ]
  ]

  -- `conceptRefs`
  pub concept_refs : String → List String
  unfolding refs_from
  concept_refs sql = refs_from (suc (len sql)) [] sql

-- The elements that fail a test.
pub missing : (String → Bool) → List String → List String
missing p [] = []
missing p (x ∷ xs) = let rest = missing p xs in if p x then rest else x ∷ rest

abbrev pub is_bound : Binding → String → Bool
is_bound b name = is_some (get name b.concepts)

abbrev pub reason : String → List String → Option String
reason text [] = none
reason text (x ∷ xs) = some (str_append text (join ", " (x ∷ xs)))

abbrev pub or_reason : Option String → Option String → Option String
or_reason (some why) later = some why
or_reason none later = later

-- The concepts whose table is not there; one that is not bound is passed over.
abbrev pub is_held : (String → Bool) → Binding → String → Bool
is_held have b name = elim (get name b.concepts) [ none ↦ true | some bd ↦ have bd.table ]

abbrev pub not_synced : List String → Option String
not_synced [] = none
not_synced (x ∷ xs) = some (str_append "has not synced " (str_append (join ", " (x ∷ xs)) " yet"))

-- A column of `CanonicalView`.
abbrev pub view_column : String → Option String → List String
view_column name none = []
view_column name (some actual) =
    (if str_eq actual name then name else str_append actual (str_append " AS " name)) ∷ []

pub view_columns : BoundDataset → List String → List String
unfolding column_for
view_columns bd [] = []
view_columns bd (name ∷ names) = view_column name (column_for bd name) ++ view_columns bd names

abbrev pub select_from : String → List String → String
select_from table [] = str_append "SELECT * FROM " table
select_from table (c ∷ cs) =
    str_append "SELECT " (str_append (join ", " (c ∷ cs)) (str_append " FROM " table))

-- `CanonicalView`
pub canonical_view : Concept → String → BoundDataset → String
unfolding view_columns join
canonical_view c table bd = select_from table (view_columns bd (c.required ++ c.optional))

abbrev pub qualified : String → BoundDataset → String
qualified alias bd = str_append alias (str_append ".main." bd.table)

abbrev pub replacement : Option Concept → String → BoundDataset → String
replacement none table bd = table
replacement (some c) table bd = str_append "(" (str_append (canonical_view c table bd) ")")

module _ (st : Strings) where
  pub contains_text : String → String → Bool
  contains_text s part = is_some (st.cut s part)

  -- `Runnable`: the concepts that are not bound.
  pub unbound_refs : Query → Binding → List String
  unfolding concept_refs missing
  unbound_refs q b = missing (is_bound b) (concept_refs st q.sql)

  -- `NeedsPopulation`
  pub needs_population : Query → Bool
  unfolding contains_text
  needs_population q = contains_text q.sql "{{POP}}"

  -- The columns that one concept of a query lacks on a portal.
  abbrev pub unavailable : Query → BoundDataset → String → Bool
  unavailable q bd col = reads_column st q.sql col && not (is_some (column_for bd col))

  pub lacking : Query → Option Concept → Option BoundDataset → List String
  unfolding missing
  lacking q none bd = []
  lacking q (some c) none = []
  lacking q (some c) (some bd) = missing (λ col. not (unavailable q bd col)) c.optional

  pub missing_from : Mode → Query → Binding → List String → List String
  unfolding lacking find_concept
  missing_from m q b [] = []
  missing_from m q b (name ∷ names) =
      lacking q (find_concept m.concepts name) (get name b.concepts) ++ missing_from m q b names

  -- `missingColumns`
  pub missing_columns : Mode → Query → Binding → List String
  unfolding missing_from
  missing_columns m q b = st.sort (missing_from m q b (concept_refs st q.sql))

  -- `Comparable`: no reason why the portal cannot answer, or the first one.
  pub comparable : Mode → Query → Binding → Option String
  unfolding unbound_refs needs_population missing_columns join
  comparable m q b = or_reason (reason "does not publish " (unbound_refs q b)) (
      or_reason
        (if needs_population q && leb_ℤ b.population (pos 0)
          then some "no population recorded, so a per-capita rate cannot be computed"
          else none)
        (reason "does not record " (missing_columns m q b)))

  -- `ComparableWith`; `none` for a nil test.
  pub comparable_with : Mode → Query → Binding → Option (String → Bool) → Option String
  unfolding comparable missing join
  comparable_with m q b none = comparable m q b
  comparable_with m q b (some have) =
      or_reason (comparable m q b) (not_synced (missing (is_held have b) (concept_refs st q.sql)))

  -- The loop of `expandWith`, with a mode.
  pub expand_refs : Mode → String → Binding → List String → String → Result String String
  unfolding canonical_view find_concept
  expand_refs m alias b [] sql = ok sql
  expand_refs m alias b (name ∷ names) sql = elim (get name b.concepts) [
    | none ↦ err (
        str_append "concept "
          (str_append (st.quote name) (str_append " is not bound for portal " b.portal)))
    | some bd ↦ expand_refs m alias b names (
        st.replace_all sql (str_append "{{c:" (str_append name "}}"))
          (replacement (find_concept m.concepts name) (qualified alias bd) bd))
  ]

  pub expand_population : Binding → String → Result String String
  unfolding contains_text
  expand_population b sql =
      if contains_text sql "{{POP}}"
      then (if leb_ℤ b.population (pos 0)
          then err (
              str_append b.portal
                " has no population recorded, so per-capita rates cannot be computed; add population and population_source to its binding")
          else ok (st.replace_all sql "{{POP}}" (st.number b.population)))
      else ok sql

  -- `ExpandConceptsFor`
  pub expand_concepts_for : Mode → String → String → Binding → Result String String
  unfolding expand_refs expand_population
  expand_concepts_for m sql alias b = expand_refs m alias b (concept_refs st sql) sql >>= λ s.
      expand_population b s >>= λ t. ok (st.replace_all t "{{P}}" alias)

  -- `Unbound`
  pub unbound : Mode → Binding → List String
  unfolding missing
  unbound m b = st.sort (missing (is_bound b) (map (λ c. c.name) m.concepts))
