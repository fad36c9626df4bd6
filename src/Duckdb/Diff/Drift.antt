-- ===== src/Duckdb/Diff/Drift.antt =====
-- What the drift check finds.
use civic_soda_quack.Prelude.{
  ◌++◌, Result, ok, err, map, ◌>>=◌, ◌≡◌, refl, ap, ◌∙◌, inl, inr, String, Option, none, some, List,
  [], ◌∷◌, str_eq, arith, if◌then◌else◌, Bool-cases,
}
use civic_soda_quack.Prelude.Maps.{get, put, DistinctKeys, put-DistinctKeys, get-put, get-nil}
use civic_soda_quack.Duckdb.Diff.{
  Change, added, removed, retyped, SchemaDiff, types_equivalent, collect, want_diffs, have_diffs,
  diff_columns, Listing, DiffError, scan_columns, live_columns, diff_schema,
}
use civic_soda_quack.Duckdb.Diff.Finds.{
  changes_for, changes_for-append, changes_for-want_diffs, changes_for-have_diffs, list_of,
  bind_change, wanted_change, live_change,
}

collect-DistinctKeys :
    (f : String → String) (m columns : List (String × String))
    → DistinctKeys m
    → DistinctKeys (collect f m columns)
unfolding collect
collect-DistinctKeys f m [] h = h
collect-DistinctKeys f m ((name, typ) ∷ columns) h = elim (Bool-cases (str_eq name "socrata_id")) [
  | inl y ↦ rw y (collect-DistinctKeys f m columns h)
  | inr z ↦
      rw z (collect-DistinctKeys f (put name (f typ) m) columns (put-DistinctKeys name (f typ) m h))
]

-- The type of a column in a listing of columns: the last one given, and none for `socrata_id`.
abbrev pub type_in :
    (String → String) → Option String → String → List (String × String) → Option String
type_in f found name [] = found
type_in f found name ((j, typ) ∷ columns) =
    type_in f
      (if str_eq j name then (if str_eq j "socrata_id" then found else some (f typ)) else found)
      name columns

get-collect :
    (f : String → String) (name : String) (m columns : List (String × String))
    → get name (collect f m columns) ≡ type_in f (get name m) name columns
unfolding collect
get-collect f name m [] = refl
get-collect f name m ((j, typ) ∷ columns) =
    get-collect f name (if str_eq j "socrata_id" then m else put j (f typ) m) columns
    ∙ ap (λ o. type_in f o name columns) (ground (arith, get-put j name (f typ) m))

-- What is to be reported of a column, from its wanted and its live type.
abbrev pub expected : Option String → Option String → Option Change
expected none none = none
expected none (some have) = some (removed have)
expected (some want) none = some (added want)
expected (some want) (some have) =
    if types_equivalent want have then none else some (retyped want have)

joined :
    (want have : Option String)
    → list_of (bind_change want (λ t. wanted_change t have))
        ++ list_of (bind_change have (λ t. live_change t want))
      ≡ list_of (expected want have)
joined none none = refl
joined none (some h) = refl
joined (some w) none = refl
joined (some w) (some h) = ground arith

-- What is reported of each column.
pub diff_columns_reports :
    (upper : String → String) (wanted live : List (String × String)) (name : String)
    → changes_for name (diff_columns upper wanted live)
      ≡ list_of (expected (type_in (λ t. t) none name wanted) (type_in upper none name live))
unfolding diff_columns
diff_columns_reports upper wanted live name =
    let have = collect upper [] live in
    let want = collect (λ t. t) [] wanted in
    changes_for-append name (want_diffs have want) (have_diffs want have)
    ∙ rw
        (
          changes_for-want_diffs name have want (collect-DistinctKeys (λ t. t) [] wanted tt),
          changes_for-have_diffs name want have (collect-DistinctKeys upper [] live tt),
          get-collect (λ t. t) name [] wanted,
          get-collect upper name [] live,
          get-nil name,
        )
        (joined (type_in (λ t. t) none name wanted) (type_in upper none name live))

module _ {E : Type 0} where
  -- Reading gives the columns of a listing without an error, and an error otherwise.
  abbrev Scans :
      List (Result E (String × String))
      → Option E
      → Result (DiffError E) (List (String × String))
      → Type 0
  Scans scans end (err e) = (live : List (String × String)) → scans ≡ map ok live → end ≡ none → ⊥
  Scans scans end (ok live) = (scans ≡ map ok live) × (end ≡ none)

  rest_of :
      (c : String × String) (scans : List (Result E (String × String)))
      (live : List (String × String))
      → ok c ∷ scans ≡ map ok live
      → (rest : List (String × String)) × (scans ≡ map ok rest)
  rest_of c scans [] h = absurd cc
  rest_of c scans (d ∷ rest) h = (rest, cc)

  no_error :
      (e : E) (scans : List (Result E (String × String))) (live : List (String × String))
      → err e ∷ scans ≡ map ok live
      → ⊥
  no_error e scans [] h = cc
  no_error e scans (d ∷ rest) h = cc

  one_more :
      (c : String × String) (scans : List (Result E (String × String))) (end : Option E)
      (r : Result (DiffError E) (List (String × String)))
      → Scans scans end r
      → Scans (ok c ∷ scans) end (r >>= λ cs. ok (c ∷ cs))
  one_more c scans end (err e) h =
      λ live same none_left. let r = rest_of c scans live same in h r.0 r.1 none_left
  one_more c scans end (ok live) h = (ap (λ s. ok c ∷ s) h.0, h.1)

  scan_columns-Scans :
      (scans : List (Result E (String × String))) (end : Option E)
      → Scans scans end (scan_columns scans end)
  unfolding scan_columns
  scan_columns-Scans [] none = (refl, refl)
  scan_columns-Scans [] (some e) = λ live same none_left. cc
  scan_columns-Scans (err e ∷ scans) end = λ live same none_left. no_error e scans live same
  scan_columns-Scans (ok c ∷ scans) end =
      one_more c scans end (scan_columns scans end) (scan_columns-Scans scans end)

  -- An error only where the listing had one, and otherwise for each column the difference between
  -- its types.
  abbrev pub Reports :
      (String → String)
      → List (String × String)
      → Listing E
      → Result (DiffError E) (List SchemaDiff)
      → Type 0
  Reports upper wanted listing (err e) =
      (live : List (String × String)) → listing ≡ ok (map ok live, none) → ⊥
  Reports upper wanted listing (ok ds) =
      (live : List (String × String)) × (listing ≡ ok (map ok live, none))
      × ((name : String)
          → changes_for name ds
            ≡ list_of (expected (type_in (λ t. t) none name wanted) (type_in upper none name live)))

  scans_of : Listing E → List (Result E (String × String))
  scans_of (err e) = []
  scans_of (ok (s, o)) = s

  end_of : Listing E → Option E
  end_of (err e) = none
  end_of (ok (s, o)) = o

  scanned-Reports :
      (upper : String → String) (wanted : List (String × String))
      (scans : List (Result E (String × String))) (end : Option E)
      (r : Result (DiffError E) (List (String × String)))
      → Scans scans end r
      → Reports upper wanted (ok (scans, end)) (r >>= λ live. ok (diff_columns upper wanted live))
  unfolding scans_of end_of
  scanned-Reports upper wanted scans end (err e) h =
      λ live same. h live (ap scans_of same) (ap end_of same)
  scanned-Reports upper wanted scans end (ok live) h =
      (live, rw (h.0, h.1) refl, λ name. diff_columns_reports upper wanted live name)

  -- The drift check gives an error exactly if the query, a row or the end of the listing of the
  -- live columns gives one. Otherwise it reports for every column name the difference between its
  -- last wanted type and its last live type in capitals and nothing else: one of added, removed or
  -- retyped, or nothing where the two are equivalent or the column is the row's id.
  pub diff_schema-Reports :
      (upper : String → String) (wanted : List (String × String)) (listing : Listing E)
      → Reports upper wanted listing (diff_schema upper wanted listing)
  unfolding diff_schema live_columns
  diff_schema-Reports upper wanted (err e) = λ live same. cc
  diff_schema-Reports upper wanted (ok (scans, end)) =
      scanned-Reports upper wanted scans end (scan_columns scans end) (scan_columns-Scans scans end)
