-- ===== src/Modes.antt =====
-- The modes of internal/modes: questions over named concepts, and the binding of the concepts to the
-- datasets of a portal (modes.go, concepts.go).
pub mod Aliases
pub mod Concepts
mod Examples
use civic_soda_quack.Prelude.{
  ℕ, String, Bool, Option, none, some, List, [], ◌∷◌, str_eq, if◌then◌else◌,
}
use civic_soda_quack.Prelude.Int.{ℤ}

pub record Query : Type 0 where
  pub name : String
  pub desc : String
  pub sql : String

pub record Concept : Type 0 where
  pub name : String
  pub required : List String
  pub optional : List String

pub record BoundDataset : Type 0 where
  pub id : String
  pub table : String
  pub columns : List (String × String)

pub record Binding : Type 0 where
  pub portal : String
  pub city : String
  pub concepts : List (String × BoundDataset)
  pub notes : List String
  pub population : ℤ

pub record Mode : Type 0 where
  pub name : String
  pub concepts : List Concept
  pub queries : List Query

-- What is used of the package strings, of sort.Strings and of fmt.Sprintf on a number
-- and a quoted text. `cut` gives what
-- stands before and behind the first occurrence of a text.
pub record Strings : Type 0 where
  pub cut : String → String → Option (String × String)
  pub trim : String → String
  pub lower : String → String
  pub replace_all : String → String → String → String
  pub sort : List String → List String
  pub number : ℤ → String
  pub quote : String → String

-- `Concept` of a mode, by name.
pub find_concept : List Concept → String → Option Concept
find_concept [] name = none
find_concept (c ∷ cs) name = if str_eq c.name name then some c else find_concept cs name
