-- ===== src/Personal/Strip.antt =====
-- `stripLiteralsAndComments`: the loop with its inner loops, as one pass whose mode says which of the
-- loops the next byte is read by.
pub mod Joins
use civic_soda_quack.Prelude.{
  ℕ, Bool, false, ◌&&◌, ◌||◌, Option, none, some, List, [], ◌∷◌, ◌++◌, Result, ok, err, ◌==◌,
  if◌then◌else◌,
}

pub data StripError : Type 0 where
  unterminated_comment : StripError
  unterminated_quote : ℕ → StripError

pub data Mode : Type 0 where
  plain : Mode
  line : Mode  -- in a `--` comment
  opening : Mode  -- at the `*` of `/*`
  block : Mode
  closing : Mode  -- at the `/` of `*/`
  quoted : ℕ → Mode
  doubled : ℕ → Mode  -- at the second of two quotes

-- `i+1 < len(s) && s[i+1] == b`
abbrev pub next_is : ℕ → List ℕ → Bool
next_is b [] = false
next_is b (c ∷ s) = c == b

-- The mode after a byte, and what is written; `s` is what follows the byte.
pub step : Mode → ℕ → List ℕ → Mode × List ℕ
step plain c s =
    if c == b'-' && next_is b'-' s
    then (line, [])
    else if c == b'/' && next_is b'*' s
    then (opening, [])
    else if c == 39 || c == 34
    then (quoted c, [])
    else (plain, c ∷ [])
step line c s = if c == 10 then (plain, c ∷ []) else (line, [])
step opening c s = (block, [])
step block c s = if c == b'*' && next_is b'/' s then (closing, []) else (block, [])
step closing c s = (plain, [])
step (quoted q) c s =
    if c == q
    then (if next_is q s then (doubled q, []) else (plain, 32 ∷ b'x' ∷ 32 ∷ []))
    else (quoted q, [])
step (doubled q) c s = (quoted q, [])

-- At the end of the text.
pub at_end : Mode → Result StripError (List ℕ)
at_end plain = ok []
at_end line = ok []
at_end opening = err unterminated_comment
at_end block = err unterminated_comment
at_end closing = ok []
at_end (quoted q) = err (unterminated_quote q)
at_end (doubled q) = err (unterminated_quote q)

abbrev pub emitted : List ℕ → Result StripError (List ℕ) → Result StripError (List ℕ)
emitted out (ok rest) = ok (out ++ rest)
emitted out (err e) = err e

pub strip_from : Mode → List ℕ → Result StripError (List ℕ)
unfolding step at_end
strip_from m [] = at_end m
strip_from m (c ∷ s) = let (m', out) = step m c s in emitted out (strip_from m' s)

unfoldable pub strip : List ℕ → Result StripError (List ℕ)
unfolding strip_from
strip s = strip_from plain s
