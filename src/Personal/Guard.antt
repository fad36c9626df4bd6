-- ===== src/Personal/Guard.antt =====
-- `CheckReadOnly`.
pub mod Admits
use civic_soda_quack.Prelude.{
  ℕ, ◌+◌, String, Bool, true, false, ◌&&◌, ◌||◌, not, Option, none, some, List, [], ◌∷◌, map, any,
  Result, ok, err, ◌>>=◌, ◌>>◌, leb, ◌==◌, if◌then◌else◌,
}
use civic_soda_quack.Personal.{bytes}
use civic_soda_quack.Personal.Strip.{StripError, strip}
use civic_soda_quack.Personal.Search.{find_token, find_call}

pub data GuardError : Type 0 where
  not_stripped : StripError → GuardError
  empty_query many_statements : GuardError
  starts_with : List ℕ → GuardError
  modifies : List ℕ → GuardError
  reads_outside : List ℕ → GuardError

-- The spaces of `strings.TrimSpace` and `strings.Fields`, and the letters of `strings.ToLower`.
pub is_space : ℕ → Bool
is_space b = b == 32 || (leb 9 b && leb b 13)

pub lower_byte : ℕ → ℕ
lower_byte b = if leb b'A' b && leb b b'Z' then b + 32 else b

pub trim_left : (ℕ → Bool) → List ℕ → List ℕ
trim_left p [] = []
trim_left p (c ∷ s) = let rest = trim_left p s in if p c then rest else c ∷ s

-- A byte in front of what was kept of the rest: a space there is cut.
abbrev pub keep_last : (ℕ → Bool) → ℕ → List ℕ → List ℕ
keep_last p c [] = if p c then [] else c ∷ []
keep_last p c (d ∷ s) = c ∷ d ∷ s

pub trim_right : (ℕ → Bool) → List ℕ → List ℕ
trim_right p [] = []
trim_right p (c ∷ s) = keep_last p c (trim_right p s)

pub trim_space : List ℕ → List ℕ
unfolding is_space trim_left trim_right
trim_space s = trim_right is_space (trim_left is_space s)

-- `strings.TrimSuffix(s, ";")`
pub cut_semicolon : List ℕ → List ℕ
cut_semicolon [] = []
cut_semicolon (c ∷ []) = if c == b';' then [] else c ∷ []
cut_semicolon (c ∷ d ∷ s) = c ∷ cut_semicolon (d ∷ s)

-- The bytes up to the first space.
pub up_to_space : List ℕ → List ℕ
unfolding is_space
up_to_space [] = []
up_to_space (c ∷ s) = let rest = up_to_space s in if is_space c then [] else c ∷ rest

-- `strings.Fields(s)[0]`, or none if there are no fields.
pub first_field : List ℕ → List ℕ
unfolding trim_left up_to_space
first_field s = up_to_space (trim_left is_space s)

pub same_text : List ℕ → List ℕ → Bool
same_text [] [] = true
same_text [] (d ∷ t) = false
same_text (c ∷ s) [] = false
same_text (c ∷ s) (d ∷ t) = c == d && same_text s t

-- `allowedLeading`
abbrev pub allowed_leading : List (List ℕ)
allowed_leading = map bytes ("select" ∷ "with" ∷ "table" ∷ "from" ∷ [])

-- `deniedKeywords`
abbrev pub denied_keywords : List (List ℕ)
denied_keywords = map bytes (
    "attach" ∷ "detach" ∷ "copy" ∷ "export" ∷ "import" ∷ "install" ∷ "load" ∷ "insert" ∷ "update"
    ∷ "delete" ∷ "truncate" ∷ "merge" ∷ "upsert" ∷ "create" ∷ "drop" ∷ "alter" ∷ "pragma" ∷ "set"
    ∷ "reset" ∷ "call" ∷ "checkpoint" ∷ "vacuum" ∷ "begin" ∷ "commit" ∷ "rollback" ∷ "grant"
    ∷ "revoke" ∷ "use" ∷ "prepare" ∷ "execute" ∷ "deallocate" ∷ [])

-- `deniedFunctions`
abbrev pub denied_functions : List (List ℕ)
denied_functions = map bytes (
    "read_csv" ∷ "read_csv_auto" ∷ "read_parquet" ∷ "read_json" ∷ "read_json_auto" ∷ "read_ndjson"
    ∷ "read_ndjson_auto" ∷ "read_text" ∷ "read_blob" ∷ "read_xlsx" ∷ "glob" ∷ "parquet_scan"
    ∷ "csv_scan" ∷ "json_scan" ∷ "sniff_csv" ∷ "delta_scan" ∷ "iceberg_scan" ∷ "postgres_scan"
    ∷ "mysql_scan" ∷ "sqlite_scan" ∷ "shellfs" ∷ "gsheet" ∷ [])

pub stripped : Result StripError (List ℕ) → Result GuardError (List ℕ)
stripped (ok s) = ok s
stripped (err e) = err (not_stripped e)

abbrev pub refuse_if : Bool → GuardError → Result GuardError (Unit {0})
refuse_if true e = err e
refuse_if false e = ok tt

abbrev pub refuse_found : (List ℕ → GuardError) → Option (List ℕ) → Result GuardError (Unit {0})
refuse_found f none = ok tt
refuse_found f (some w) = err (f w)

abbrev pub is_empty : List ℕ → Bool
is_empty [] = true
is_empty (c ∷ s) = false

-- The statement without its last semicolon.
pub body_of : List ℕ → List ℕ
unfolding trim_space cut_semicolon
body_of s = cut_semicolon (trim_space (trim_space s))

pub check_body : List ℕ → Result GuardError (Unit {0})
unfolding first_field trim_left same_text lower_byte
check_body body = do
  refuse_if (any (λ c. c == b';') body) many_statements
  let lower = map lower_byte body
  let field = first_field lower
  refuse_if (is_empty field) empty_query
  refuse_if (not (any (same_text (trim_left (λ c. c == b'(') field)) allowed_leading))
      (starts_with field)
  refuse_found modifies (find_token lower denied_keywords)
  refuse_found reads_outside (find_call lower denied_functions)

pub check_stripped : List ℕ → Result GuardError (Unit {0})
unfolding body_of check_body
check_stripped s = do refuse_if (is_empty (trim_space s)) empty_query; check_body (body_of s)

pub check_read_only : List ℕ → Result GuardError (Unit {0})
unfolding stripped check_stripped
check_read_only s = do t ← stripped (strip s); check_stripped t
