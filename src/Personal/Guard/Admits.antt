-- ===== src/Personal/Guard/Admits.antt =====
-- Which statements `CheckReadOnly` lets through.
use civic_soda_quack.Prelude.{
  ℕ, ◌||◌, ◌++◌, inl, inr, ap, subst, ◌≡◌, refl, sym, ◌∙◌, ◌↔◌, Bool, true, false, not, Option,
  none, some, List, [], ◌∷◌, map, any, all, All, Result, ok, err, ◌>>=◌, ◌>>◌, ◌==◌, Bool-cases,
}
use civic_soda_quack.Personal.Strip.{StripError, next_is, strip}
use civic_soda_quack.Personal.Strip.Joins.{is_quiet, strip-literal}
use civic_soda_quack.Personal.Search.{is_ident_byte, word_boundary, is_call, find_token, find_call}
use civic_soda_quack.Personal.Search.Occurs.{Occurs}
use civic_soda_quack.Personal.Search.Absent.{is_word, find_token-none, find_call-none}
use civic_soda_quack.Personal.Guard.{
  GuardError, empty_query, many_statements, starts_with, modifies, reads_outside, lower_byte,
  trim_left, trim_space, cut_semicolon, first_field, same_text, allowed_leading, denied_keywords,
  denied_functions, stripped, refuse_if, refuse_found, is_empty, body_of, check_body,
  check_stripped, check_read_only,
}

-- One statement that starts with an allowed word, in which no denied keyword stands as a word of its
-- own and no denied function is called.
abbrev pub ReadsOnly : List ℕ → Type 0
ReadsOnly body =
    let lower = map lower_byte body in
    (any (λ c. c == b';') body ≡ false)
    × (any (same_text (trim_left (λ c. c == b'(') (first_field lower))) allowed_leading ≡ true)
    × All (λ w. ¬ Occurs word_boundary w lower) denied_keywords
    × All (λ f. ¬ Occurs is_call f lower) denied_functions

-- Nothing is refused exactly if no test refuses.
all_pass :
    (many blank : Bool) (lead : Bool) (f g : List ℕ → GuardError) (word call : Option (List ℕ))
    (start : GuardError)
    → ((do
      refuse_if many many_statements
      refuse_if blank empty_query
      refuse_if (not lead) start
      refuse_found f word
      refuse_found g call)
        ≡ ok tt)
      ↔ ((many ≡ false) × (blank ≡ false) × (lead ≡ true) × (word ≡ none) × (call ≡ none))
all_pass true blank lead f g word call start = (λ h. cc, λ h. cc)
all_pass false true lead f g word call start = (λ h. cc, λ h. cc)
all_pass false false false f g word call start = (λ h. cc, λ h. cc)
all_pass false false true f g (some w) call start = (λ h. cc, λ h. cc)
all_pass false false true f g none (some w) start = (λ h. cc, λ h. cc)
all_pass false false true f g none none start = (λ h. (refl, refl, refl, refl, refl), λ h. refl)

-- A field that starts as it must is not empty.
lead_some :
    (field : List ℕ)
    → any (same_text (trim_left (λ c. c == b'(') field)) allowed_leading ≡ true
    → is_empty field ≡ false
unfolding same_text trim_left
lead_some [] h = cc
lead_some (c ∷ field) h = refl

module _ (body lower : List ℕ) (words calls : List (List ℕ)) (words_are : all is_word words ≡ true)
    (calls_are : all is_word calls ≡ true) where
  abbrev Reads : Type 0
  Reads =
      (any (λ c. c == b';') body ≡ false)
      × (any (same_text (trim_left (λ c. c == b'(') (first_field lower))) allowed_leading ≡ true)
      × All (λ w. ¬ Occurs word_boundary w lower) words
      × All (λ f. ¬ Occurs is_call f lower) calls

  tests_pass :
      ((do
        refuse_if (any (λ c. c == b';') body) many_statements
        refuse_if (is_empty (first_field lower)) empty_query
        refuse_if
            (not (any (same_text (trim_left (λ c. c == b'(') (first_field lower))) allowed_leading))
            (starts_with (first_field lower))
        refuse_found modifies (find_token lower words)
        refuse_found reads_outside (find_call lower calls))
        ≡ ok tt)
      ↔ Reads
  tests_pass =
      let (there, back) =
        all_pass _ _ _ modifies reads_outside (find_token lower words) (find_call lower calls) _ in
      let word = find_token-none lower words words_are in
      let call = find_call-none lower calls calls_are in
      (
        λ h. let (m, e, l, w, c) = there h in (m, l, word.0 w, call.0 c),
        λ (m, l, w, c). back (m, lead_some (first_field lower) l, l, word.1 w, call.1 c),
      )

keywords_are : all is_word denied_keywords ≡ true
unfolding is_ident_byte
keywords_are = refl

functions_are : all is_word denied_functions ≡ true
unfolding is_ident_byte
functions_are = refl

check_body_ok : (body : List ℕ) → (check_body body ≡ ok tt) ↔ ReadsOnly body
unfolding check_body
check_body_ok body =
    tests_pass body (map lower_byte body) denied_keywords denied_functions keywords_are
      functions_are

empty_nil : (s : List ℕ) → is_empty s ≡ true → s ≡ []
empty_nil [] h = refl
empty_nil (c ∷ s) h = cc

nothing_left : cut_semicolon (trim_space []) ≡ []
unfolding cut_semicolon trim_space
nothing_left = refl

nothing_reads : ¬ ReadsOnly []
unfolding first_field trim_left same_text lower_byte
nothing_reads (one, lead, words, calls) = cc lead

-- An empty statement has no leading word.
blank_body : (t : List ℕ) → is_empty (trim_space t) ≡ true → ¬ ReadsOnly (body_of t)
unfolding body_of
blank_body t h r = nothing_reads (
    subst ReadsOnly
      (ap (λ s. cut_semicolon (trim_space s)) (empty_nil (trim_space t) h) ∙ nothing_left) r)

check_stripped_ok : (t : List ℕ) → (check_stripped t ≡ ok tt) ↔ ReadsOnly (body_of t)
unfolding check_stripped
check_stripped_ok t = elim (Bool-cases (is_empty (trim_space t))) [
  | inl y ↦ rw y (λ h. cc, λ r. absurd (blank_body t y r))
  | inr n ↦ rw n (check_body_ok (body_of t))
]

ok_injective : (t t' : List ℕ) → ◌≡◌ {A = Result StripError (List ℕ)} (ok t) (ok t') → t ≡ t'
ok_injective t t' e = cc

by_strip :
    (r : Result StripError (List ℕ))
    → ((stripped r >>= check_stripped) ≡ ok tt)
      ↔ ((t : List ℕ) × (r ≡ ok t) × ReadsOnly (body_of t))
unfolding stripped
by_strip (err e) = (λ h. cc, λ (t, h, r). cc h)
by_strip (ok t) =
    let (there, back) = check_stripped_ok t in
    (
      λ h. (t, refl, there h),
      λ (t', e, r). back (subst (λ t. ReadsOnly (body_of t)) (sym (ok_injective t t' e)) r),
    )

-- With letters lowered and spaces cut as in ASCII, the guard accepts a text exactly if its
-- literals and comments can be removed and what is left, without a last semicolon, has no
-- semicolon, starts with an allowed word, has no denied keyword as a word of its own and no call
-- of a denied function.
pub check_read_only_iff :
    (s : List ℕ)
    → (check_read_only s ≡ ok tt) ↔ ((t : List ℕ) × (strip s ≡ ok t) × ReadsOnly (body_of t))
unfolding check_read_only stripped
check_read_only_iff s = by_strip (strip s)

-- Behind text without quotes, hyphens and slashes, the verdict of the guard does not depend on
-- what a literal or a quoted name holds, as long as that has no quote of its kind.
pub check_read_only-literal :
    (q : ℕ) (xs text text' s : List ℕ)
    → (q == 39 || q == 34) ≡ true
    → all is_quiet xs ≡ true
    → all (λ b. not (b == q)) text ≡ true
    → all (λ b. not (b == q)) text' ≡ true
    → next_is q s ≡ false
    → check_read_only (xs ++ (q ∷ (text ++ (q ∷ s))))
      ≡ check_read_only (xs ++ (q ∷ (text' ++ (q ∷ s))))
unfolding check_read_only
check_read_only-literal q xs text text' s quote quiet h h' last =
    ap (λ r. stripped r >>= check_stripped) (strip-literal q xs text text' s quote quiet h h' last)
