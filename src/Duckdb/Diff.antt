-- ===== src/Duckdb/Diff.antt =====
-- Schema drift: internal/duckdb/schema_diff.go. `upper` is strings.ToUpper; a table is given by the
-- names and types that information_schema lists, in its order. The source goes through its maps in any
-- order, here in that of the listing, and then that of the live table.
mod Examples
mod Finds
pub mod Drift
use civic_soda_quack.Prelude.{
  String, Bool, true, false, ◌||◌, Option, none, some, List, [], ◌∷◌, ◌++◌, str_eq, if◌then◌else◌,
  Result, ok, err, ◌>>=◌,
}
use civic_soda_quack.Prelude.Maps.{get, put}

-- The `Kind` of a difference, with the types that it carries.
pub data Change : Type 0 where
  added : String → Change
  removed : String → Change
  retyped : String → String → Change

-- `SchemaDiff`
pub record SchemaDiff : Type 0 where
  pub column : String
  pub change : Change

-- `norm` in `typesEquivalent`
norm : String → String
norm s = if str_eq s "STRING" then "VARCHAR" else s

unfoldable pub types_equivalent : String → String → Bool
unfolding norm
types_equivalent want have = if str_eq want have then true else str_eq (norm want) (norm have)

-- The loops that fill `have` and `wantMap`: the synthetic column is left out.
pub collect :
    (String → String) → List (String × String) → List (String × String) → List (String × String)
collect f m [] = m
collect f m ((name, typ) ∷ columns) =
    collect f (if str_eq name "socrata_id" then m else put name (f typ) m) columns

want_diff : String → String → Option String → List SchemaDiff
want_diff name want none = record { column = name; change = added want } ∷ []
want_diff name want (some have) =
    if types_equivalent want have
    then []
    else record { column = name; change = retyped want have } ∷ []

pub want_diffs : List (String × String) → List (String × String) → List SchemaDiff
want_diffs have [] = []
want_diffs have ((name, typ) ∷ want) = want_diff name typ (get name have) ++ want_diffs have want

have_diff : String → String → Option String → List SchemaDiff
have_diff name have none = record { column = name; change = removed have } ∷ []
have_diff name have (some want) = []

pub have_diffs : List (String × String) → List (String × String) → List SchemaDiff
have_diffs want [] = []
have_diffs want ((name, typ) ∷ have) = have_diff name typ (get name want) ++ have_diffs want have

-- `DiffSchema` behind the reading of the live columns, from the names and types of both sides.
pub diff_columns :
    (String → String) → List (String × String) → List (String × String) → List SchemaDiff
diff_columns upper wanted live =
    let have = collect upper [] live in
    let want = collect (λ t. t) [] wanted in want_diffs have want ++ have_diffs want have

-- The rows of information_schema: the error of the query, or what each Scan gives and the error behind
-- the last row.
abbrev pub Listing : Type 0 → Type 0
Listing E = Result E (List (Result E (String × String)) × Option E)

pub data DiffError (E : Type 0) : Type 0 where
  not_queried not_scanned not_ended : E → DiffError E

module _ {E : Type 0} where
  pub scan_columns :
      List (Result E (String × String)) → Option E → Result (DiffError E) (List (String × String))
  scan_columns [] none = ok []
  scan_columns [] (some e) = err (not_ended e)
  scan_columns (err e ∷ scans) end = err (not_scanned e)
  scan_columns (ok c ∷ scans) end = scan_columns scans end >>= λ cs. ok (c ∷ cs)

  pub live_columns : Listing E → Result (DiffError E) (List (String × String))
  unfolding scan_columns
  live_columns (err e) = err (not_queried e)
  live_columns (ok (scans, end)) = scan_columns scans end

  -- `DiffSchema`
  pub diff_schema :
      (String → String)
      → List (String × String)
      → Listing E
      → Result (DiffError E) (List SchemaDiff)
  unfolding live_columns diff_columns
  diff_schema upper wanted listing =
      live_columns listing >>= λ live. ok (diff_columns upper wanted live)
