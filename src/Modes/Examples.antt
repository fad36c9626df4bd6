-- ===== src/Modes/Examples.antt =====
-- A mode of one concept and a city that answers its query.
use civic_soda_quack.Prelude.Int.{ℤ, pos, negsuc}
use Prim.Native.String.{len}
use mathlib.Core.Path.{subst}
use civic_soda_quack.Prelude.Texts.{contains}
use civic_soda_quack.Prelude.{
  inl, inr, Bool-cases, eq_iff, arith, ◌+◌, ℕ, ◌≡◌, ◌↔◌, refl, String, Bool, true, Option, none,
  some, [], ◌∷◌, str_eq, ◌&&◌, ◌==◌, if◌then◌else◌,
}
use civic_soda_quack.Prelude.Maps.{get, put}
use civic_soda_quack.Personal.{bytes}
use civic_soda_quack.Personal.Search.Occurs.{Occurs}
use civic_soda_quack.Modes.{Query, Concept, BoundDataset, Binding, Mode, Strings, find_concept}
use civic_soda_quack.Modes.Aliases.{Names, unique_aliases}
use civic_soda_quack.Modes.Concepts.{comparable_with, uses_column, uses_from, is_ident}
use civic_soda_quack.Modes.Concepts.Answers.{
  IsName, HasNames, Provides, HasPopulation, comparable_with_iff,
}
use civic_soda_quack.Modes.Concepts.Refs.{IsCut, Refers}
use civic_soda_quack.Modes.Concepts.Uses.{whole_word, uses_column-Answers, uses_from-nil}

-- A statement is one of three texts, and an opening is cut out of the first two.
abbrev cut_at : String → String → Option (String × String)
cut_at s part =
    if str_eq s "select status from {{c:calls}}" && str_eq part "{{c:"
    then some ("select status from ", "calls}}")
    else if str_eq s "calls}}" && str_eq part "}}"
    then some ("calls", "")
    else none

abbrev number_text : ℤ → String
number_text (pos n) = if n == 2 then "2" else "many"
number_text (negsuc n) = "negative"

abbrev plain_strings : Strings
plain_strings = record {
  cut = cut_at;
  trim = λ s. s;
  lower = λ s. s;
  replace_all = λ s old new. s;
  sort = λ xs. xs;
  number = number_text;
  quote = λ s. s;
}

abbrev calls_dataset : BoundDataset
calls_dataset = record { id = "aaaa-bbbb"; table = "calls"; columns = ("status", "state") ∷ [] }

abbrev springfield : Binding
springfield = record {
  portal = "data.springfield.gov";
  city = "Springfield, IL";
  concepts = ("calls", calls_dataset) ∷ [];
  notes = [];
  population = pos 0;
}

abbrev calls_concept : Concept
calls_concept = record { name = "calls"; required = "status" ∷ []; optional = "zip" ∷ [] }

abbrev calls_mode : Mode
calls_mode = record { name = "calls"; concepts = calls_concept ∷ []; queries = [] }

abbrev by_status : Query
by_status = record { name = "by-status"; desc = ""; sql = "select status from {{c:calls}}" }

abbrev holds_calls : String → Bool
holds_calls table = str_eq table "calls"

both : (s part t u : String) → (str_eq s t && str_eq part u) ≡ true → (s ≡ t) × (part ≡ u)
both s part t u h = ((eq_iff s t).0 (ground (arith, h)), (eq_iff part u).0 (ground (arith, h)))

-- One of the cuts above.
one_cut :
    (s part a b t u c d : String)
    → (str_eq s t && str_eq part u) ≡ true
    → ◌≡◌ {A = Option (String × String)} (some (c, d)) (some (a, b))
    → len c + len u + len d ≡ len t
    → len a + len part + len b ≡ len s
one_cut s part a b t u c d k h l =
    let e = both s part t u k in
    let x : c ≡ a = cc in let y : d ≡ b = cc in rw (e.0, e.1, ← x, ← y) l

plain_strings-IsCut : IsCut plain_strings
plain_strings-IsCut s part a b h =
    elim (Bool-cases (str_eq s "select status from {{c:calls}}" && str_eq part "{{c:")) [
      | inl y ↦
          one_cut s part a b "select status from {{c:calls}}" "{{c:" "select status from " "calls}}"
            y (rw y at h) refl
      | inr z ↦ elim (Bool-cases (str_eq s "calls}}" && str_eq part "}}")) [
        | inl y ↦ one_cut s part a b "calls}}" "}}" "calls" "" y (rw (z, y) at h) refl
        | inr w ↦ absurd (let k = rw (z, w) at h in cc)
      ]
    ]

zip_IsName : (col : String) → contains ("zip" ∷ []) col ≡ true → IsName plain_strings col
unfolding is_ident
zip_IsName col h =
    subst (IsName plain_strings) ((eq_iff "zip" col).0 (ground (arith, h)))
      (b'z', bytes "ip", refl, refl)

calls_names : (name : String) → HasNames plain_strings (find_concept calls_mode.concepts name)
unfolding find_concept
calls_names name = elim (Bool-cases (str_eq "calls" name)) [
  | inl y ↦ rw y (λ c e col k.
      let x : c ≡ calls_concept = cc in
      zip_IsName col (subst (λ d. contains d.optional col ≡ true) x k))
  | inr z ↦ rw z (λ c e col k. absurd cc)
]

comparable_with_iff_example :
    (comparable_with plain_strings calls_mode by_status springfield (some holds_calls) ≡ none) ↔ (
      ((name : String)
        → Refers plain_strings by_status.sql name
        → Provides plain_strings calls_mode by_status springfield holds_calls name)
      × HasPopulation plain_strings by_status springfield)
comparable_with_iff_example =
    comparable_with_iff plain_strings plain_strings-IsCut (λ xs. ((λ h. h), (λ h. h))) calls_mode
      calls_names by_status springfield holds_calls

uses_column-Answers_example :
    (b : Bool) × (uses_column plain_strings "select substatus, status" "status" ≡ some b)
    × ((b ≡ true) ↔ Occurs whole_word (bytes "status") (bytes "select substatus, status"))
unfolding is_ident
uses_column-Answers_example =
    uses_column-Answers plain_strings "select substatus, status" "status" b's' (bytes "tatus") refl
      refl

-- With an empty name of a column the search never ends.
no_answer : (fuel : ℕ) → uses_from fuel [] none (bytes "select 1") ≡ none
unfolding is_ident
no_answer fuel = uses_from-nil fuel b's' (bytes "elect 1") refl

abbrev same_names : Names
same_names = record {
  base = λ s. s;
  trim_suffix = λ s t. s;
  only_ident = λ s. s;
  trim_underscores = λ s. s;
}

-- A numbered alias is not looked for among the others: two of three are the same.
repeated_alias :
    unique_aliases plain_strings same_names ("a" ∷ "a" ∷ "a_2" ∷ []) ≡ "a" ∷ "a_2" ∷ "a_2" ∷ []
unfolding unique_aliases get put
repeated_alias = refl
