-- ===== src/Personal/Search/Exact.antt =====
-- That the searches miss nothing, although they go on behind an occurrence that does not count.
use civic_soda_quack.Prelude.{
  ℕ, zero, suc, ◌<◌, ◌≡◌, refl, sym, ap, ◌∙◌, ◌↔◌, Bool, true, false, ◌||◌, Option, none, some,
  List, [], ◌∷◌, ◌++◌, length, arith, if◌then◌else◌, all, length-append,
}
use civic_soda_quack.Personal.Search.{
  is_ident_byte, no_ident, last_byte, after_word, here_or, further, index, Hit, search_from, search,
  word_boundary, contains_word, is_call, calls,
}
use civic_soda_quack.Personal.Search.Occurs.{
  Occurs, accepted, occurs, after_word-some, occurs_sound, occurs_complete,
}

none_left :
    (o : Option (List ℕ)) (later : Option (List ℕ × List ℕ))
    → here_or o later ≡ none
    → (o ≡ none) × (later ≡ none)
none_left none later h = (refl, h)
none_left (some post) later h = cc

further-none : (c : ℕ) (l : Option (List ℕ × List ℕ)) → further c l ≡ none → l ≡ none
further-none c none h = refl
further-none c (some (pre, post)) h = cc

if_true_or : (b c : Bool) → (if b then true else c) ≡ (b || c)
if_true_or true c = refl
if_true_or false c = refl

module _ (ident : ℕ → Bool) (hit : Hit) where
  -- Nothing counts behind an identifier byte.
  abbrev pub Inside : Type 0
  Inside = (b : ℕ) (post : List ℕ) → ident b ≡ true → hit (some b) post ≡ false

  accepted_inside :
      Inside → (b : ℕ) (o : Option (List ℕ)) → ident b ≡ true → accepted hit (some b) o ≡ false
  accepted_inside inside b none h = refl
  accepted_inside inside b (some post) h = inside b post h

  skip_ident :
      Inside
      → (word : List ℕ) (b : ℕ) (u post : List ℕ) → ident b ≡ true
      → all ident u ≡ true
      → occurs hit word (some b) (u ++ post) ≡ occurs hit word (last_byte (some b) u) post
  unfolding occurs
  skip_ident inside word b [] post hb hu = refl
  skip_ident inside word b (c ∷ u) post hb hu =
      rw (accepted_inside inside b (after_word word (c ∷ (u ++ post))) hb)
        (skip_ident inside word c u post (ground arith) (ground arith))

  index-none :
      (word s : List ℕ) (before : Option ℕ) → index word s ≡ none → occurs hit word before s ≡ false
  unfolding index occurs
  index-none word [] before h = rw (none_left (after_word word []) none h).0 refl
  index-none word (c ∷ s) before h =
      let (e, l) = none_left (after_word word (c ∷ s)) (further c (index word s)) h in
      rw e (index-none word s (some c) (further-none c (index word s) l))

  module _ (inside : Inside) (w : ℕ) (word : List ℕ) (hw : all ident (w ∷ word) ≡ true) where
    -- The first occurrence counts, or else one behind it does.
    abbrev pub Splits : Bool → ℕ → Option ℕ → List ℕ → List ℕ → Type 0
    Splits found size before pre post =
        (found ≡ (
          hit (last_byte before pre) post || occurs hit (w ∷ word) (last_byte (some w) word) post))
        × (length post < size)

    found_here :
        (c : ℕ) (s post : List ℕ) (before : Option ℕ)
        → after_word (w ∷ word) (c ∷ s) ≡ some post
        → Splits
            (hit before post || occurs hit (w ∷ word) (some c) s)
            (suc (length s))
            before
            []
            post
    found_here c s post before e =
        let whole = after_word-some (w ∷ word) (c ∷ s) post e in
        let tail : s ≡ word ++ post = cc in
        let head : c ≡ w = cc in
        (
          ap (λ b. hit before post || b)
              (rw (tail, head)
                (skip_ident inside (w ∷ word) w word post (ground arith) (ground arith))),
          omega (arith, ap length tail, length-append word post),
        )

    index_cons :
        (c : ℕ) (s pre post : List ℕ) (before : Option ℕ)
        → ((pre post : List ℕ)
            → index (w ∷ word) s ≡ some (pre, post)
            → Splits (occurs hit (w ∷ word) (some c) s) (length s) (some c) pre post)
        → (o : Option (List ℕ)) → after_word (w ∷ word) (c ∷ s) ≡ o
        → (l : Option (List ℕ × List ℕ)) → index (w ∷ word) s ≡ l
        → here_or o (further c l) ≡ some (pre, post)
        → Splits
            (accepted hit before o || occurs hit (w ∷ word) (some c) s)
            (suc (length s))
            before
            pre
            post
    index_cons c s pre post before ih (some p) e l el h =
        let first : [] ≡ pre = ap (λ o. elim o [ none ↦ pre | some (a, b) ↦ a ]) h in
        let second : p ≡ post = ap (λ o. elim o [ none ↦ post | some (a, b) ↦ b ]) h in
        rw (← first, ← second) (found_here c s p before e)
    index_cons c s pre post before ih none e none el h = cc
    index_cons c s pre post before ih none e (some (pre', post')) el h =
        let first : (c ∷ pre') ≡ pre = ap (λ o. elim o [ none ↦ pre | some (a, b) ↦ a ]) h in
        let second : post' ≡ post = ap (λ o. elim o [ none ↦ post | some (a, b) ↦ b ]) h in
        let (q, n) = ih pre' post' el in rw (← first, ← second) (q, omega arith)

    pub index-some :
        (s pre post : List ℕ) (before : Option ℕ)
        → index (w ∷ word) s ≡ some (pre, post)
        → Splits (occurs hit (w ∷ word) before s) (length s) before pre post
    unfolding index occurs
    index-some [] pre post before h = cc
    index-some (c ∷ s) pre post before h =
        index_cons c s pre post before (λ pre' post'. index-some s pre' post' (some c))
          (after_word (w ∷ word) (c ∷ s)) refl (index (w ∷ word) s) refl h

    found_or_behind :
        (fuel : ℕ) (before : Option ℕ) (s : List ℕ) (o : Option (List ℕ × List ℕ))
        → index (w ∷ word) s ≡ o
        → length s < suc fuel
        → ((before : Option ℕ) (post : List ℕ)
            → length post < fuel
            → search_from fuel hit (w ∷ word) before post ≡ occurs hit (w ∷ word) before post)
        → elim o [
          | none ↦ false
          | some (pre, post) ↦
              if hit (last_byte before pre) post
              then true
              else search_from fuel hit (w ∷ word) (last_byte before (w ∷ word)) post
        ]
          ≡ occurs hit (w ∷ word) before s
    found_or_behind fuel before s none e h ih = sym (index-none (w ∷ word) s before e)
    found_or_behind fuel before s (some (pre, post)) e h ih =
        let (q, n) = index-some s pre post before e in
        rw (q, ih (last_byte (some w) word) post (omega arith))
          (if_true_or (hit (last_byte before pre) post) _)

    pub search_from_lem :
        (fuel : ℕ) (before : Option ℕ) (s : List ℕ)
        → length s < fuel
        → search_from fuel hit (w ∷ word) before s ≡ occurs hit (w ∷ word) before s
    unfolding search_from
    search_from_lem zero before s h = elim h [ ]
    search_from_lem (suc fuel) before s h =
        found_or_behind fuel before s (index (w ∷ word) s) refl h (search_from_lem fuel)

  -- The search is exact for a word of identifier bytes.
  pub search_iff :
      Inside
      → (w : ℕ) (word s : List ℕ) → all ident (w ∷ word) ≡ true
      → search hit (w ∷ word) s ≡ true ↔ Occurs hit (w ∷ word) s
  unfolding search
  search_iff inside w word s hw =
      let same = search_from_lem inside w word hw (suc (length s)) none s (omega arith) in
      (
        λ h. occurs_sound hit (w ∷ word) s none (sym same ∙ h),
        λ (pre, post, split, counts).
            rw (same, split) (occurs_complete hit (w ∷ word) none pre post counts),
      )

word_boundary_inside : Inside is_ident_byte word_boundary
unfolding word_boundary no_ident
word_boundary_inside b post h = rw h refl

is_call_inside : Inside is_ident_byte is_call
unfolding is_call
is_call_inside b post h = rw (word_boundary_inside b post h) refl

-- For a non-empty word of identifier bytes, the search for a keyword says yes exactly if the text
-- has an occurrence of the word with no identifier byte beside it, although the search goes on
-- behind every occurrence that does not count.
pub contains_word_iff :
    (w : ℕ) (word s : List ℕ)
    → all is_ident_byte (w ∷ word) ≡ true
    → contains_word s (w ∷ word) ≡ true ↔ Occurs word_boundary (w ∷ word) s
unfolding contains_word
contains_word_iff w word s hw =
    search_iff is_ident_byte word_boundary word_boundary_inside w word s hw

-- A call is found although the search goes on behind an occurrence of the name that is none.
pub calls_iff :
    (w : ℕ) (word s : List ℕ)
    → all is_ident_byte (w ∷ word) ≡ true
    → calls s (w ∷ word) ≡ true ↔ Occurs is_call (w ∷ word) s
unfolding calls
calls_iff w word s hw = search_iff is_ident_byte is_call is_call_inside w word s hw
