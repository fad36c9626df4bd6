-- ===== src/Investigate/Discover.antt =====
-- Which investigation a question asks for: internal/investigate/discover.go. A text is looked at as its
-- characters' numbers, with strings.ToLower as a parameter. `cities` are the labels of the bindings, in
-- the order in which they are gone through.
pub mod Routes
use Prim.Native.String.{len}
use civic_soda_quack.Prelude.{
  ℕ, zero, suc, ◌+◌, String, Bool, true, false, ◌&&◌, ◌||◌, not, Option, none, some, List, [], ◌∷◌,
  ◌++◌, map, any, Result, ok, err, str_eq, if◌then◌else◌, ltb, leb, ◌==◌,
}
use civic_soda_quack.Prelude.Int.{ℤ}
use civic_soda_quack.Prelude.Sorts.{stable_sort}
use civic_soda_quack.Personal.{bytes}
use civic_soda_quack.Personal.Search.{index}
use civic_soda_quack.Personal.Guard.{trim_space}
use civic_soda_quack.Modes.{Strings}
use civic_soda_quack.Investigate.{Numbers, Investigation}

pub record Candidate (F : Type 0) : Type 0 where
  pub name : String
  pub score : F
  pub matched : List String

pub data DiscoverError (F : Type 0) : Type 0 where
  no_match : String → DiscoverError F
  ambiguous : String → Candidate F → Candidate F → DiscoverError F
  unknown_investigation : String → DiscoverError F

pub record Discovery (F : Type 0) : Type 0 where
  pub investigation : Investigation F
  pub matched : List String
  pub score : F
  pub place : String
  pub alternatives : List (Candidate F)

abbrev pub letter_or_space : ℕ → ℕ
letter_or_space r = if (leb b'a' r && leb r b'z') || (leb b'0' r && leb r b'9') then r else b' '

module _ (st : Strings) where
  -- `normalise`
  pub normalise : String → List ℕ
  normalise s = b' ' ∷ map letter_or_space (bytes (st.lower s)) ++ b' ' ∷ []

  abbrev pub occurs_in : List ℕ → List ℕ → Bool
  occurs_in q [] = false
  occurs_in q (c ∷ t) = elim (index (b' ' ∷ c ∷ t ++ b' ' ∷ []) q) [ none ↦ false | some at ↦ true ]

  -- `containsTerm`
  pub contains_term : List ℕ → String → Bool
  unfolding normalise
  contains_term q term = occurs_in q (trim_space (normalise term))

  -- The terms of an investigation that a question holds.
  pub matched_terms : List ℕ → List String → List String
  unfolding contains_term
  matched_terms q [] = []
  matched_terms q (term ∷ terms) =
      let rest = matched_terms q terms in if contains_term q term then term ∷ rest else rest

module _ {F : Type 0} (st : Strings) where
  -- How many investigations declare a lowered term.
  abbrev declares : String → Investigation F → Bool
  declares t inv = any (λ term. str_eq (st.lower term) t) inv.terms

  pub declared_by : String → List (Investigation F) → ℕ
  declared_by t [] = 0
  declared_by t (inv ∷ invs) =
      let rest = declared_by t invs in if declares t inv then suc rest else rest

  -- `Lookup`
  pub lookup : List (Investigation F) → String → Option (Investigation F)
  lookup [] want = none
  lookup (inv ∷ invs) want = if str_eq inv.name want then some inv else lookup invs want

module _ {F : Type 0} where
  -- The map of `Discover` from names to investigations, where a later one of a name replaces an
  -- earlier one.
  pub by_name : List (Investigation F) → String → Option (Investigation F)
  by_name [] want = none
  by_name (inv ∷ invs) want = elim (by_name invs want) [
    | some later ↦ some later
    | none ↦ if str_eq inv.name want then some inv else none
  ]

module _ {F : Type 0} (nm : Numbers F) where
  -- `round2`; `of_int` is float64 of an int.
  pub round2 : (ℤ → F) → F → F
  round2 of_int f =
      nm.over (of_int (nm.to_int (nm.plus (nm.times f nm.hundred) nm.half))) nm.hundred

  abbrev pub has_more : Candidate F → Candidate F → Bool
  has_more c d = nm.less d.score c.score

  abbrev pub weighs_more : (String → F) → String → String → Bool
  weighs_more weight t u = nm.less (weight u) (weight t)

  pub sum_weights : (String → F) → F → List String → F
  sum_weights weight acc [] = acc
  sum_weights weight acc (t ∷ ts) = sum_weights weight (nm.plus acc (weight t)) ts

module _ {F : Type 0} (nm : Numbers F) (st : Strings) (of_int : ℤ → F) where
  -- `termWeights`, of one term of the registry.
  pub weight_of : List (Investigation F) → String → F
  unfolding declared_by
  weight_of registry term = nm.over nm.one (nm.of_count (declared_by st (st.lower term) registry))

  abbrev pub candidate : (String → F) → Investigation F → List String → List (Candidate F)
  candidate weight inv matched =
      let score = sum_weights nm weight nm.nought matched in
      if nm.less_eq score nm.nought
      then []
      else record {
        name = inv.name;
        score = round2 nm of_int score;
        matched = stable_sort (weighs_more nm weight) matched;
      }
        ∷ []

  -- The loop of `Discover`.
  pub scored : (String → F) → List ℕ → List (Investigation F) → List (Candidate F)
  unfolding matched_terms sum_weights stable_sort round2
  scored weight q [] = []
  scored weight q (inv ∷ invs) =
      candidate weight inv (matched_terms st q inv.terms) ++ scored weight q invs

-- The labels that `knownPlaces` lists, and the one that `placeIn` finds.
module _ (st : Strings) where
  pub add_place : String → List String → List String
  add_place s out =
      if str_eq (st.trim s) "" || any (λ o. str_eq (st.lower o) (st.lower (st.trim s))) out
      then out
      else out ++ st.trim s ∷ []

  abbrev pub first_word : String → List String
  first_word city = elim (st.cut city ",") [ none ↦ [] | some (head, rest) ↦ head ∷ [] ]

  abbrev pub and_first : List String → List String → List String
  and_first [] out = out
  and_first (w ∷ ws) out = add_place w out

  pub known_places : List String → List String → List String
  unfolding add_place
  known_places out [] = out
  known_places out (city ∷ cities) =
      known_places (and_first (first_word city) (add_place city out)) cities

  pub longest_place : List ℕ → String → List String → String
  unfolding contains_term
  longest_place q best [] = best
  longest_place q best (label ∷ labels) =
      longest_place q
        (if contains_term st q (st.lower label) && ltb (len best) (len label) then label else best)
        labels

  -- `placeIn`
  pub place_in : List String → List ℕ → String
  unfolding longest_place known_places
  place_in cities q = longest_place q "" (known_places [] cities)

module _ {F : Type 0} (nm : Numbers F) (st : Strings) (cities : List String) where
  -- The end of `Discover`, of the candidates in their order.
  pub found :
      List (Investigation F)
      → String
      → Candidate F
      → List (Candidate F)
      → Result (DiscoverError F) (Discovery F)
  unfolding place_in by_name normalise
  found registry question top rest = elim (by_name registry top.name) [
    | none ↦ err (unknown_investigation top.name)
    | some inv ↦ ok (record {
      investigation = inv;
      matched = top.matched;
      score = top.score;
      place = place_in st cities (normalise st question);
      alternatives = rest;
    })
  ]

  pub choose :
      List (Investigation F) → String → List (Candidate F) → Result (DiscoverError F) (Discovery F)
  unfolding found
  choose registry question [] = err (no_match question)
  choose registry question (top ∷ []) = found registry question top []
  choose registry question (top ∷ next ∷ rest) =
      if nm.same top.score next.score
      then err (ambiguous question top next)
      else found registry question top (next ∷ rest)

  -- `Discover`
  pub discover : (ℤ → F) → List (Investigation F) → String → Result (DiscoverError F) (Discovery F)
  unfolding choose scored weight_of stable_sort
  discover of_int registry question = choose registry question (
      stable_sort (has_more nm)
        (scored nm st of_int (weight_of nm st of_int registry) (normalise st question) registry))

  -- `DiscoverNamed`
  pub discover_named :
      List (Investigation F) → String → String → Result (DiscoverError F) (Discovery F)
  unfolding lookup place_in normalise
  discover_named registry name question = elim (lookup st registry (st.lower (st.trim name))) [
    | none ↦ err (unknown_investigation name)
    | some inv ↦ ok (record {
      investigation = inv;
      matched = "(named explicitly)" ∷ [];
      score = nm.nought;
      place = place_in st cities (normalise st question);
      alternatives = [];
    })
  ]
