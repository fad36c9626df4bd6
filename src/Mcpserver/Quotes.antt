-- ===== src/Mcpserver/Quotes.antt =====
-- `escapeSQLString` and `replaceAll` of internal/mcpserver/pools.go, which write a text into a literal of a
-- statement. A text is its list of bytes; 39 is the single quote.
pub mod Reads
mod Examples
use civic_soda_quack.Prelude.{
  ℕ, zero, suc, ◌≡◌, Bool, true, false, Option, none, some, List, [], ◌∷◌, ◌++◌, length, ◌==◌,
  if◌then◌else◌,
}

-- What stands behind `old`, if the text starts with it.
pub behind : List ℕ → List ℕ → Option (List ℕ)
behind [] s = some s
behind (o ∷ old) [] = none
behind (o ∷ old) (c ∷ s) = let rest = behind old s in if c == o then rest else none

-- One round of `replaceAll`, at a byte, with what the later rounds make of the rest.
abbrev pub replaced : (List ℕ → List ℕ) → List ℕ → ℕ → List ℕ → Option (List ℕ) → List ℕ
replaced later new c s (some rest) = new ++ later rest
replaced later new c s none = c ∷ later s

-- The loop, on fuel; a round reads at least one byte where `old` is not empty.
pub replace_from : ℕ → List ℕ → List ℕ → List ℕ → List ℕ
unfolding behind
replace_from zero old new s = []
replace_from (suc fuel) old new [] = []
replace_from (suc fuel) old new (c ∷ s) =
    replaced (replace_from fuel old new) new c s (behind old (c ∷ s))

pub replace_all : List ℕ → List ℕ → List ℕ → List ℕ
unfolding replace_from
replace_all s old new = replace_from (length s) old new s

-- `escapeSQLString`
pub escape_sql_string : List ℕ → List ℕ
unfolding replace_all
escape_sql_string s = replace_all s (39 ∷ []) (39 ∷ 39 ∷ [])
