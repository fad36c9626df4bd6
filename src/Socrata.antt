-- ===== src/Socrata.antt =====
-- Rows, columns and row identifiers of the Socrata client (internal/socrata/ext.go, types.go).
pub mod Duration
pub mod Retry
pub mod Stream
pub mod Catalog
use Prim.Native.Char.{Char, code}
use Prim.Native.String
use package.text.Mathlib.Text.{find?}
use mathlib.Core.Option.{IsSome}
use civic_soda_quack.Prelude.Maps.{get}
use civic_soda_quack.Prelude.{
  ℕ, String, Bool, true, false, ◌&&◌, ◌||◌, not, Option, none, some, List, [], ◌∷◌, leb, ◌==◌,
  str_eq, if◌then◌else◌,
}

-- What `encoding/json` decodes into an `any`; `F` stands for float64.
mutual
  pub data Json (F : Type 0) : Type 0 where
    null : Json F
    boolean : Bool → Json F
    number : F → Json F
    text : String → Json F
    array : Items F → Json F
    object : Fields F → Json F

  pub data Items (F : Type 0) : Type 0 where
    nil : Items F
    cons : Json F → Items F → Items F

  pub data Fields (F : Type 0) : Type 0 where
    end : Fields F
    field : String → Json F → Fields F → Fields F

-- `Row`, a JSON object with the keys of a Go map.
abbrev pub Row : Type 0 → Type 0
Row F = List (String × Json F)

pub is_id_char : ℕ → Bool
is_id_char c =
    (leb b'A' c && leb c b'Z')
    || (leb b'a' c && leb c b'z')
    || (leb b'0' c && leb c b'9')
    || c == b'_'
    || c == b'~'
    || c == b'.'
    || c == b'-'

all_id_chars : String → Bool
unfolding is_id_char
all_id_chars String.[] = true
all_id_chars (String.◌∷◌ c s) = is_id_char (code c) && all_id_chars s

-- `socrataIDPattern.MatchString`; the `+` refuses the empty text.
unfoldable pub matches_id_pattern : String → Bool
unfolding all_id_chars
matches_id_pattern s = not (str_eq s "") && all_id_chars s

unfoldable pub usable_id : {F : Type 0} → Option (Json F) → Option String
usable_id (some (text s)) = if str_eq s "" || not (matches_id_pattern s) then none else some s
usable_id _ = none

unfoldable pub socrata_id_of : {F : Type 0} → Row F → Option String
socrata_id_of row = usable_id (get ":id" row)

-- `strings.Contains`
contains : String → String → Bool
contains s t = elim (find? s t) [ none ↦ false | some _ ↦ true ]

unfoldable pub selects_socrata_id : String → Bool
unfolding contains
selects_socrata_id select = contains select ":*" || contains select ":id"
