-- ===== src/Personal/Strip/Joins.antt =====
-- What becomes of a comment and of a literal.
use civic_soda_quack.Prelude.{
  ℕ, ◌≡◌, refl, sym, ◌∙◌, ap, Bool, true, false, ◌&&◌, ◌||◌, not, List, [], ◌∷◌, ◌++◌, Result, ok,
  err, all, ◌==◌, arith,
}
use civic_soda_quack.Personal.Strip.{
  StripError, plain, block, quoted, next_is, step, emitted, strip_from, strip,
}

-- A byte that starts no comment and no literal.
abbrev pub is_quiet : ℕ → Bool
is_quiet c = not (c == b'-') && not (c == b'/') && not (c == 39) && not (c == 34)

step_quiet : (c : ℕ) (s : List ℕ) → is_quiet c ≡ true → step plain c s ≡ (plain, c ∷ [])
unfolding step
step_quiet c s h = ground arith

-- Quiet text is written as it is.
strip_quiet :
    (xs s t : List ℕ)
    → all is_quiet xs ≡ true
    → strip_from plain s ≡ strip_from plain t
    → strip_from plain (xs ++ s) ≡ strip_from plain (xs ++ t)
unfolding strip_from
strip_quiet [] s t h e = e
strip_quiet (c ∷ xs) s t h e =
    rw (step_quiet c (xs ++ s) (ground arith), step_quiet c (xs ++ t) (ground arith))
      (ap (emitted (c ∷ [])) (strip_quiet xs s t (ground arith) e))

emitted_nothing : (r : Result StripError (List ℕ)) → emitted [] r ≡ r
emitted_nothing (ok s) = refl
emitted_nothing (err e) = refl

step_block : (c : ℕ) (s : List ℕ) → not (c == b'*') ≡ true → step block c s ≡ (block, [])
unfolding step
step_block c s h = ground arith

step_text : (q c : ℕ) (s : List ℕ) → not (c == q) ≡ true → step (quoted q) c s ≡ (quoted q, [])
unfolding step
step_text q c s h = ground arith

step_close :
    (q : ℕ) (s : List ℕ) → next_is q s ≡ false → step (quoted q) q s ≡ (plain, 32 ∷ b'x' ∷ 32 ∷ [])
unfolding step
step_close q s h = rw h (ground arith)

step_open : (q : ℕ) (s : List ℕ) → (q == 39 || q == 34) ≡ true → step plain q s ≡ (quoted q, [])
unfolding step
step_open q s h = ground arith

skip_block :
    (note s : List ℕ)
    → all (λ b. not (b == b'*')) note ≡ true
    → strip_from block (note ++ (b'*' ∷ b'/' ∷ s)) ≡ strip_from plain s
unfolding strip_from step
skip_block [] s h = emitted_nothing _ ∙ emitted_nothing _
skip_block (c ∷ note) s h =
    rw (step_block c (note ++ (b'*' ∷ b'/' ∷ s)) (ground arith))
      (emitted_nothing _ ∙ skip_block note s (ground arith))

skip_literal :
    (q : ℕ) (text s : List ℕ)
    → all (λ b. not (b == q)) text ≡ true
    → next_is q s ≡ false
    → strip_from (quoted q) (text ++ (q ∷ s)) ≡ emitted (32 ∷ b'x' ∷ 32 ∷ []) (strip_from plain s)
unfolding strip_from
skip_literal q [] s h last = rw (step_close q s last) refl
skip_literal q (c ∷ text) s h last =
    rw (step_text q c (text ++ (q ∷ s)) (ground arith))
      (emitted_nothing _ ∙ skip_literal q text s (ground arith) last)

open_block :
    (note s : List ℕ)
    → all (λ b. not (b == b'*')) note ≡ true
    → strip_from plain (b'/' ∷ b'*' ∷ (note ++ (b'*' ∷ b'/' ∷ s))) ≡ strip_from plain s
unfolding strip_from step
open_block note s h = emitted_nothing _ ∙ (emitted_nothing _ ∙ skip_block note s h)

open_literal :
    (q : ℕ) (text s : List ℕ)
    → (q == 39 || q == 34) ≡ true
    → all (λ b. not (b == q)) text ≡ true
    → next_is q s ≡ false
    → strip_from plain (q ∷ (text ++ (q ∷ s))) ≡ emitted (32 ∷ b'x' ∷ 32 ∷ []) (strip_from plain s)
unfolding strip_from
open_literal q text s quote h last =
    rw (step_open q (text ++ (q ∷ s)) quote) (emitted_nothing _ ∙ skip_literal q text s h last)

-- A block comment without a star inside, behind text without quotes, hyphens and slashes, is
-- removed so that the text behind it follows the text before it with nothing between.
pub strip-comment :
    (xs note s : List ℕ)
    → all is_quiet xs ≡ true
    → all (λ b. not (b == b'*')) note ≡ true
    → strip (xs ++ (b'/' ∷ b'*' ∷ (note ++ (b'*' ∷ b'/' ∷ s)))) ≡ strip (xs ++ s)
unfolding strip
strip-comment xs note s quiet inner = strip_quiet xs _ s quiet (open_block note s inner)

-- Two literals in one place leave the same text.
pub strip-literal :
    (q : ℕ) (xs text text' s : List ℕ)
    → (q == 39 || q == 34) ≡ true
    → all is_quiet xs ≡ true
    → all (λ b. not (b == q)) text ≡ true
    → all (λ b. not (b == q)) text' ≡ true
    → next_is q s ≡ false
    → strip (xs ++ (q ∷ (text ++ (q ∷ s)))) ≡ strip (xs ++ (q ∷ (text' ++ (q ∷ s))))
unfolding strip
strip-literal q xs text text' s quote quiet h h' last =
    strip_quiet xs _ _ quiet
      (open_literal q text s quote h last ∙ sym (open_literal q text' s quote h' last))
