-- ===== src/Personal.antt =====
-- Generated analyses, internal/personal: the guard on their SQL (guard.go). A text is its list of
-- bytes, and is ASCII where letters are lowered and spaces are cut.
pub mod Strip
pub mod Search
pub mod Guard
mod Examples
use Prim.Native.Char.{code}
use Prim.Native.String.{String}
use civic_soda_quack.Prelude.{ℕ, List, [], ◌∷◌}

abbrev pub bytes : String → List ℕ
bytes String.[] = []
bytes (String.◌∷◌ c s) = code c ∷ bytes s
