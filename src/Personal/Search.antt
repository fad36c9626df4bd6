-- ===== src/Personal/Search.antt =====
-- The searches of the guard for a word: `containsWord`, `wordBoundary`, `nextNonSpaceIs` and the loop
-- of `findCall`.
pub mod Occurs
pub mod Exact
pub mod Absent
mod Examples
use civic_soda_quack.Prelude.{
  ℕ, zero, suc, Bool, true, false, ◌&&◌, ◌||◌, not, Option, none, some, List, [], ◌∷◌, length, leb,
  ◌==◌, if◌then◌else◌,
}

-- `isIdentByte`
unfoldable pub is_ident_byte : ℕ → Bool
is_ident_byte b =
    b == b'_'
    || b == b'$'
    || (leb b'a' b && leb b b'z')
    || (leb b'A' b && leb b b'Z')
    || (leb b'0' b && leb b b'9')

-- A byte beside an occurrence, if there is one.
pub no_ident : Option ℕ → Bool
unfolding is_ident_byte
no_ident none = true
no_ident (some b) = not (is_ident_byte b)

abbrev pub first_byte : List ℕ → Option ℕ
first_byte [] = none
first_byte (c ∷ s) = some c

-- The last byte of `s`, or else the byte before it.
abbrev pub last_byte : Option ℕ → List ℕ → Option ℕ
last_byte before [] = before
last_byte before (c ∷ s) = last_byte (some c) s

-- What follows `word`, if `s` starts with it.
unfoldable pub after_word : List ℕ → List ℕ → Option (List ℕ)
after_word [] s = some s
after_word (w ∷ word) [] = none
after_word (w ∷ word) (c ∷ s) = let rest = after_word word s in if c == w then rest else none

abbrev pub further : ℕ → Option (List ℕ × List ℕ) → Option (List ℕ × List ℕ)
further c none = none
further c (some (pre, post)) = some (c ∷ pre, post)

-- An occurrence here, or else a later one.
abbrev pub here_or : Option (List ℕ) → Option (List ℕ × List ℕ) → Option (List ℕ × List ℕ)
here_or none later = later
here_or (some post) later = some ([], post)

-- `strings.Index`: what stands before and behind the first occurrence.
unfoldable pub index : List ℕ → List ℕ → Option (List ℕ × List ℕ)
unfolding after_word
index word [] = here_or (after_word word []) none
index word (c ∷ s) = here_or (after_word word (c ∷ s)) (further c (index word s))

-- The test on an occurrence, from the byte before it and what follows it.
abbrev pub Hit : Type 0
Hit = Option ℕ → List ℕ → Bool

-- The loop of both searches, from `idx` on; `before` is the byte there before. `none` of fuel is
-- never reached from `search`.
unfoldable pub search_from : ℕ → Hit → List ℕ → Option ℕ → List ℕ → Bool
search_from zero hit word before s = false
search_from (suc fuel) hit word before s = elim (index word s) [
  | none ↦ false
  | some (pre, post) ↦
      if hit (last_byte before pre) post
      then true
      else search_from fuel hit word (last_byte before word) post
]

unfoldable pub search : Hit → List ℕ → List ℕ → Bool
unfolding search_from
search hit word s = search_from (suc (length s)) hit word none s

-- `wordBoundary`
pub word_boundary : Hit
unfolding no_ident
word_boundary before post = no_ident before && no_ident (first_byte post)

pub contains_word : List ℕ → List ℕ → Bool
unfolding search
contains_word s word = search word_boundary word s

pub is_blank : ℕ → Bool
is_blank b = b == 32 || b == 9 || b == 10 || b == 13

pub next_non_space_is : ℕ → List ℕ → Bool
unfolding is_blank
next_non_space_is want [] = false
next_non_space_is want (c ∷ s) =
    let later = next_non_space_is want s in if is_blank c then later else c == want

pub is_call : Hit
unfolding word_boundary next_non_space_is
is_call before post = word_boundary before post && next_non_space_is b'(' post

-- The inner loop of `findCall`.
pub calls : List ℕ → List ℕ → Bool
unfolding search
calls s fn = search is_call fn s

pub find_first : (List ℕ → Bool) → List (List ℕ) → Option (List ℕ)
find_first p [] = none
find_first p (w ∷ ws) = let later = find_first p ws in if p w then some w else later

pub find_token : List ℕ → List (List ℕ) → Option (List ℕ)
unfolding find_first
find_token lower words = find_first (contains_word lower) words

pub find_call : List ℕ → List (List ℕ) → Option (List ℕ)
unfolding find_first
find_call lower fns = find_first (calls lower) fns
