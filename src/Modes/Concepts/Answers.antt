-- ===== src/Modes/Concepts/Answers.antt =====
-- When a portal can answer a query.
use mathlib.Core.Path.{subst}
use civic_soda_quack.Prelude.Texts.{contains}
use civic_soda_quack.Personal.{bytes}
use civic_soda_quack.Personal.Search.Occurs.{Occurs}
use civic_soda_quack.Modes.Concepts.Uses.{whole_word, uses_column-Answers}
use civic_soda_quack.Modes.Concepts.Refs.{IsCut, Refers, concept_refs-All, All-iff}
use civic_soda_quack.Prelude.{
  ℕ, all, ◌⊎◌, arith, Option-cases, if◌then◌else◌, ◌≡◌, ◌↔◌, refl, inl, inr, String, Bool, true,
  false, ◌&&◌, not, Option, none, some, List, [], ◌∷◌, ◌++◌, All, Bool-cases,
}
use civic_soda_quack.Prelude.Int.{pos, leb_ℤ, ◌≤ℤ◌}
use civic_soda_quack.Prelude.Maps.{get}
use civic_soda_quack.Modes.{Query, Concept, BoundDataset, Binding, Mode, Strings, find_concept}
use civic_soda_quack.Modes.Concepts.{
  is_ident, contains_text, column_for, reads_column, is_some, concept_refs, missing, is_bound,
  unbound_refs, needs_population, unavailable, lacking, missing_from, missing_columns, reason,
  or_reason, comparable, is_held, not_synced, comparable_with,
}

missing_iff :
    (p : String → Bool) (xs : List String) → (missing p xs ≡ []) ↔ All (λ x. p x ≡ true) xs
unfolding missing
missing_iff p [] = ((λ h. tt), (λ h. refl))
missing_iff p (x ∷ xs) = elim (Bool-cases (p x)) [
  | inl y ↦ rw y ((λ h. (refl, (missing_iff p xs).0 h)), (λ h. (missing_iff p xs).1 h.1))
  | inr z ↦ rw z ((λ h. cc), (λ h. cc))
]

append-nil_iff :
    {A : Type 0} (xs ys : List A) → ◌≡◌ {A = List A} (xs ++ ys) [] ↔ ((xs ≡ []) × (ys ≡ []))
append-nil_iff [] ys = ((λ h. (refl, h)), (λ h. h.1))
append-nil_iff (x ∷ xs) ys = ((λ h. cc), (λ h. cc))

or_reason_iff : (a b : Option String) → (or_reason a b ≡ none) ↔ ((a ≡ none) × (b ≡ none))
or_reason_iff none b = ((λ h. (refl, h)), (λ h. h.1))
or_reason_iff (some why) b = ((λ h. cc), (λ h. cc))

reason_iff : (text : String) (xs : List String) → (reason text xs ≡ none) ↔ (xs ≡ [])
reason_iff text [] = ((λ h. refl), (λ h. refl))
reason_iff text (x ∷ xs) = ((λ h. cc), (λ h. cc))

not_synced_iff : (xs : List String) → (not_synced xs ≡ none) ↔ (xs ≡ [])
not_synced_iff [] = ((λ h. refl), (λ h. refl))
not_synced_iff (x ∷ xs) = ((λ h. cc), (λ h. cc))

population_iff :
    (b : Bool) (why : String)
    → (◌≡◌ {A = Option String} (if b then some why else none) none) ↔ (b ≡ false)
population_iff true why = ((λ h. cc), (λ h. cc))
population_iff false why = ((λ h. refl), (λ h. refl))

module _ (st : Strings) where
  -- Every optional column of the concept that the query reads is there.
  abbrev Records : Query → Option Concept → Option BoundDataset → Type 0
  Records q (some c) (some bd) = All (λ col. not (unavailable st q bd col) ≡ true) c.optional
  Records q none bd = Unit
  Records q (some c) none = Unit

  lacking_iff :
      (q : Query) (c : Option Concept) (bd : Option BoundDataset)
      → (lacking st q c bd ≡ []) ↔ Records q c bd
  unfolding lacking
  lacking_iff q none bd = ((λ h. tt), (λ h. refl))
  lacking_iff q (some c) none = ((λ h. tt), (λ h. refl))
  lacking_iff q (some c) (some bd) = missing_iff (λ col. not (unavailable st q bd col)) c.optional

  missing_from_iff :
      (m : Mode) (q : Query) (b : Binding) (names : List String)
      → (missing_from st m q b names ≡ [])
        ↔ All (λ name. Records q (find_concept m.concepts name) (get name b.concepts)) names
  unfolding missing_from
  missing_from_iff m q b [] = ((λ h. tt), (λ h. refl))
  missing_from_iff m q b (name ∷ names) =
      let l = lacking_iff q (find_concept m.concepts name) (get name b.concepts) in
      let r = missing_from_iff m q b names in
      let n =
        append-nil_iff (lacking st q (find_concept m.concepts name) (get name b.concepts))
          (missing_from st m q b names) in
      ((λ h. (l.0 (n.0 h).0, r.0 (n.0 h).1)), (λ h. n.1 (l.1 h.0, r.1 h.1)))

  -- What the code tests.
  abbrev Passes : Mode → Query → Binding → Type 0
  Passes m q b =
      All (λ name. is_bound b name ≡ true) (concept_refs st q.sql)
      × ((needs_population st q && leb_ℤ b.population (pos 0)) ≡ false)
      × All (λ name. Records q (find_concept m.concepts name) (get name b.concepts))
          (concept_refs st q.sql)

  module _ (sorted : (xs : List String) → (st.sort xs ≡ []) ↔ (xs ≡ [])) where
    comparable_iff :
        (m : Mode) (q : Query) (b : Binding) → (comparable st m q b ≡ none) ↔ Passes m q b
    unfolding comparable unbound_refs missing_columns
    comparable_iff m q b =
        let refs = concept_refs st q.sql in
        let unbound = missing (is_bound b) refs in
        let lacks = st.sort (missing_from st m q b refs) in
        let nobody = needs_population st q && leb_ℤ b.population (pos 0) in
        let why : String = "no population recorded, so a per-capita rate cannot be computed" in
        let u = reason_iff "does not publish " unbound in
        let p = population_iff nobody why in
        let l = reason_iff "does not record " lacks in
        let a = missing_iff (is_bound b) refs in
        let c = missing_from_iff m q b refs in
        let s = sorted (missing_from st m q b refs) in
        let second =
          or_reason_iff (if nobody then some why else none) (reason "does not record " lacks) in
        let first =
          or_reason_iff (reason "does not publish " unbound)
            (or_reason (if nobody then some why else none) (reason "does not record " lacks)) in
        (
          (λ h.
              let f = first.0 h in
              let g = second.0 f.1 in (a.0 (u.0 f.0), p.0 g.0, c.0 (s.0 (l.0 g.1)))),
          (λ h. first.1 (u.1 (a.1 h.0), second.1 (p.1 h.1, l.1 (s.1 (c.1 h.2))))),
        )

    comparable_with-Passes :
        (m : Mode) (q : Query) (b : Binding) (have : String → Bool)
        → (comparable_with st m q b (some have) ≡ none)
          ↔ (Passes m q b × All (λ name. is_held have b name ≡ true) (concept_refs st q.sql))
    unfolding comparable_with
    comparable_with-Passes m q b have =
        let absent = missing (is_held have b) (concept_refs st q.sql) in
        let o = or_reason_iff (comparable st m q b) (not_synced absent) in
        let c = comparable_iff m q b in
        let n = not_synced_iff absent in
        let a = missing_iff (is_held have b) (concept_refs st q.sql) in
        ((λ h. let f = o.0 h in (c.0 f.0, a.0 (n.0 f.1))), (λ h. o.1 (c.1 h.0, n.1 (a.1 h.1))))

-- A table has every canonical column, where its columns are not given, or maps this one.
abbrev pub HasColumn : BoundDataset → String → Type 0
HasColumn bd col = (bd.columns ≡ []) ⊎ ((actual : String) × (get col bd.columns ≡ some actual))

column_for-cases :
    (bd : BoundDataset) (col : String) (cs : List (String × String))
    → bd.columns ≡ cs
    → (is_some (column_for bd col) ≡ true) ↔ HasColumn bd col
unfolding column_for
column_for-cases bd col [] e = rw (column_for, e) ((λ h. inl refl), (λ h. refl))
column_for-cases bd col (c ∷ cs) e = elim (Option-cases (get col (c ∷ cs))) [
  | inl n ↦
      rw (column_for, e, n)
        ((λ h. cc), (λ h. elim h [ inl k ↦ cc | inr k ↦ absurd (let t = k.1 in cc) ]))
  | inr (actual, k) ↦ rw (column_for, e, k) ((λ h. inr (actual, refl)), (λ h. refl))
]

column_for_iff :
    (bd : BoundDataset) (col : String) → (is_some (column_for bd col) ≡ true) ↔ HasColumn bd col
column_for_iff bd col = column_for-cases bd col bd.columns refl

module _ (st : Strings) where
  -- A column's name is not empty and has identifier bytes only.
  abbrev pub IsName : String → Type 0
  IsName col =
      (w : ℕ) × (word : List ℕ) × (bytes (st.lower col) ≡ w ∷ word)
      × (all is_ident (w ∷ word) ≡ true)

  -- The column stands in the statement with no identifier byte beside it.
  abbrev pub IsRead : Query → String → Type 0
  IsRead q col = Occurs whole_word (bytes (st.lower col)) (bytes (st.lower q.sql))

  reads_column_iff :
      (q : Query) (col : String) → IsName col → (reads_column st q.sql col ≡ true) ↔ IsRead q col
  reads_column_iff q col (w, word, e, h) =
      let u = uses_column-Answers st q.sql col w word e h in rw (reads_column, u.1, e) u.2

  available_iff :
      (q : Query) (bd : BoundDataset) (col : String)
      → IsName col
      → (not (unavailable st q bd col) ≡ true) ↔ (IsRead q col → HasColumn bd col)
  available_iff q bd col name =
      let r = reads_column_iff q col name in
      let a = column_for_iff bd col in
      (
        (λ h k. a.0 (let t = r.1 k in ground (arith, h, t))),
        (λ h. elim (Bool-cases (reads_column st q.sql col)) [
          | inl y ↦ let t = a.1 (h (r.0 y)) in ground (arith, y, t)
          | inr z ↦ ground (arith, z)
        ]),
      )

  -- Of the optional columns of a concept, a portal has those that the query reads.
  abbrev pub HasRead : Query → Option Concept → BoundDataset → Type 0
  HasRead q o bd =
      (c : Concept)
      → o ≡ some c
      → (col : String) → contains c.optional col ≡ true
      → IsRead q col
      → HasColumn bd col

  abbrev pub HasNames : Option Concept → Type 0
  HasNames o =
      (c : Concept) → o ≡ some c → (col : String) → contains c.optional col ≡ true → IsName col

  optional-Records :
      (q : Query) (c : Concept) (bd : BoundDataset)
      → HasNames (some c)
      → Records st q (some c) (some bd) ↔ HasRead q (some c) bd
  optional-Records q c bd names =
      let a = All-iff (λ col. not (unavailable st q bd col) ≡ true) c.optional in
      (
        (λ h d e col k.
            (available_iff q bd col (names d e col k)).0 (a.0 h col (rw (same c d e) k))),
        (λ h. a.1 (λ col k. (available_iff q bd col (names c refl col k)).1 (h c refl col k))),
      )
    where
      same : (c d : Concept) → some c ≡ some d → c ≡ d
      same c d e = cc

  Records-iff :
      (q : Query) (o : Option Concept) (bd : BoundDataset)
      → HasNames o
      → Records st q o (some bd) ↔ HasRead q o bd
  Records-iff q none bd names = ((λ h c e. absurd (no_concept c e)), (λ h. tt))
    where
      no_concept : (c : Concept) → none ≡ some c → ⊥
      no_concept c e = cc
  Records-iff q (some c) bd names = optional-Records q c bd names

  -- What a portal has of one concept of a query.
  abbrev pub Provides : Mode → Query → Binding → (String → Bool) → String → Type 0
  Provides m q b have name =
      (bd : BoundDataset) × (get name b.concepts ≡ some bd)
      × (have bd.table ≡ true)
      × HasRead q (find_concept m.concepts name) bd

  abbrev Tested : Mode → Query → Binding → (String → Bool) → String → Option BoundDataset → Type 0
  Tested m q b have name o =
      (is_some o ≡ true)
      × Records st q (find_concept m.concepts name) o
      × (elim o [ none ↦ true | some bd ↦ have bd.table ] ≡ true)

  Provides-iff :
      (m : Mode) (q : Query) (b : Binding) (have : String → Bool) (name : String)
      (o : Option BoundDataset)
      → HasNames (find_concept m.concepts name)
      → get name b.concepts ≡ o
      → Tested m q b have name o ↔ Provides m q b have name
  Provides-iff m q b have name none names e =
      ((λ h. absurd (let k = h.0 in cc)), (λ h. absurd (let k = h.1 in cc)))
  Provides-iff m q b have name (some bd) names e =
      let r = Records-iff q (find_concept m.concepts name) bd names in
      (
        (λ h. (bd, e, h.2, r.0 h.1)),
        (λ h.
            let same : h.0 ≡ bd = cc in
            (
              refl,
              r.1 (subst (HasRead q (find_concept m.concepts name)) same h.3),
              subst (λ x. have x.table ≡ true) same h.2,
            )),
      )

  -- The query needs no population, or the portal has one.
  abbrev pub HasPopulation : Query → Binding → Type 0
  HasPopulation q b =
      (p : String × String) → st.cut q.sql "{{POP}}" ≡ some p → pos 1 ≤ℤ b.population

  HasPopulation-iff :
      (q : Query) (b : Binding)
      → ((needs_population st q && leb_ℤ b.population (pos 0)) ≡ false) ↔ HasPopulation q b
  unfolding needs_population contains_text
  HasPopulation-iff q b = elim (Option-cases (st.cut q.sql "{{POP}}")) [
    | inl e ↦ rw e ((λ h p k. absurd cc), (λ h. refl))
    | inr (p, e) ↦ rw e ((λ h r k. ground (arith, h)), (λ h. let k = h p refl in ground (arith, k)))
  ]

  -- Where a text that is cut out of another one leaves the rest of it, sorting gives no list only
  -- for no list, and the optional columns of the mode's concepts are non-empty names of identifier
  -- bytes, a portal is comparable on a query, given the tables that are there, exactly if it has a
  -- positive population where the query names one, and it binds every concept that the statement
  -- refers to, to a table that is there and has every optional column of the concept that stands
  -- in the statement with no identifier byte beside it. A table without a list of columns has all
  -- of them.
  pub comparable_with_iff :
      (cuts : IsCut st) (sorted : (xs : List String) → (st.sort xs ≡ []) ↔ (xs ≡ [])) (m : Mode)
      (names : (name : String) → HasNames (find_concept m.concepts name)) (q : Query) (b : Binding)
      (have : String → Bool)
      → (comparable_with st m q b (some have) ≡ none)
        ↔ (((name : String) → Refers st q.sql name → Provides m q b have name) × HasPopulation q b)
  comparable_with_iff cuts sorted m names q b have =
      let t = comparable_with-Passes st sorted m q b have in
      let p = HasPopulation-iff q b in
      let bound = concept_refs-All st cuts (λ name. is_bound b name ≡ true) q.sql in
      let recorded =
        concept_refs-All st cuts
          (λ name. Records st q (find_concept m.concepts name) (get name b.concepts)) q.sql in
      let held = concept_refs-All st cuts (λ name. is_held have b name ≡ true) q.sql in
      let one =
        λ (name : String). Provides-iff m q b have name (get name b.concepts) (names name) refl in
      (
        (λ h.
            let k = t.0 h in
            (
              (λ name r.
                  (one name).0 (bound.0 k.0.0 name r, recorded.0 k.0.2 name r, held.0 k.1 name r)),
              p.0 k.0.1,
            )),
        (λ h. t.1 (
          (
            bound.1 (λ name r. ((one name).1 (h.0 name r)).0),
            p.1 h.1,
            recorded.1 (λ name r. ((one name).1 (h.0 name r)).1),
          ),
          held.1 (λ name r. ((one name).1 (h.0 name r)).2),
        )),
      )
