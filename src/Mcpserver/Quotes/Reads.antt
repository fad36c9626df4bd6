-- ===== src/Mcpserver/Quotes/Reads.antt =====
-- That a statement reads an escaped text back, whatever it holds.
use civic_soda_quack.Prelude.{
  ℕ, zero, suc, ◌≡◌, ◌≢◌, ◌≤◌, refl, sym, ap, Bool, true, false, Option, none, some, List, [], ◌∷◌,
  ◌++◌, length, ◌==◌, ==_iff, arith, Bool-cases, inl, inr, if◌then◌else◌,
}
use civic_soda_quack.Mcpserver.Quotes.{behind, replace_from, replace_all, escape_sql_string}

abbrev pub starts_quoted : List ℕ → Bool
starts_quoted [] = false
starts_quoted (c ∷ s) = c == 39

abbrev pub read_more : ℕ → Option (List ℕ × List ℕ) → Option (List ℕ × List ℕ)
read_more c none = none
read_more c (some (text, rest)) = some (c ∷ text, rest)

-- How SQL reads a literal behind its first quote: two quotes are one, and one quote ends it. The text,
-- and what follows.
pub read_literal : List ℕ → Option (List ℕ × List ℕ)
read_literal [] = none
read_literal (c ∷ []) = if c == 39 then some ([], []) else none
read_literal (c ∷ d ∷ s) =
    let after_pair = read_literal s in
    let after_one = read_literal (d ∷ s) in
    if c == 39
    then (if d == 39 then read_more 39 after_pair else some ([], d ∷ s))
    else read_more c after_one

-- Every quote twice.
doubled : List ℕ → List ℕ
doubled [] = []
doubled (c ∷ s) = let rest = doubled s in if c == 39 then 39 ∷ 39 ∷ rest else c ∷ rest

behind_quote : (c : ℕ) (s : List ℕ) → (c == 39) ≡ true → behind (39 ∷ []) (c ∷ s) ≡ some s
unfolding behind
behind_quote c s h = rw h refl

behind_other : (c : ℕ) (s : List ℕ) → (c == 39) ≡ false → behind (39 ∷ []) (c ∷ s) ≡ none
unfolding behind
behind_other c s h = rw h refl

length_more : (xs : List ℕ) (r : List ℕ) → length (xs ++ (39 ∷ r)) ≢ 0
length_more [] r h = absurd (omega arith)
length_more (x ∷ xs) r h = absurd (omega arith)

escape-doubled :
    (n : ℕ) (s : List ℕ) → length s ≤ n → replace_from n (39 ∷ []) (39 ∷ 39 ∷ []) s ≡ doubled s
unfolding replace_from doubled
escape-doubled zero [] h = refl
escape-doubled zero (c ∷ s) h = absurd (omega arith)
escape-doubled (suc n) [] h = refl
escape-doubled (suc n) (c ∷ s) h = elim (Bool-cases (c == 39)) [
  | inl y ↦ rw (behind_quote c s y, y, escape-doubled n s (omega arith)) refl
  | inr z ↦ rw (behind_other c s z, z, escape-doubled n s (omega arith)) refl
]

read_literal_quote : (s : List ℕ) → starts_quoted s ≡ false → read_literal (39 ∷ s) ≡ some ([], s)
unfolding read_literal
read_literal_quote [] h = refl
read_literal_quote (c ∷ s) h = rw h refl

read_literal_plain :
    (c : ℕ) (s : List ℕ)
    → (c == 39) ≡ false
    → length s ≢ 0
    → read_literal (c ∷ s) ≡ read_more c (read_literal s)
unfolding read_literal
read_literal_plain c [] h k = absurd (k refl)
read_literal_plain c (d ∷ s) h k = rw h refl

read_literal-doubled :
    (s rest : List ℕ)
    → starts_quoted rest ≡ false
    → read_literal (doubled s ++ (39 ∷ rest)) ≡ some (s, rest)
unfolding doubled read_literal
read_literal-doubled [] rest h = read_literal_quote rest h
read_literal-doubled (c ∷ s) rest h = elim (Bool-cases (c == 39)) [
  | inl y ↦
      rw (y, read_literal-doubled s rest h) (ap (λ b. some (b ∷ s, rest)) (sym ((==_iff c 39).0 y)))
  | inr z ↦
      rw
        (
          z,
          read_literal_plain c (doubled s ++ (39 ∷ rest)) z (length_more (doubled s) rest),
          read_literal-doubled s rest h,
        )
        refl
]

-- An escaped text, put between two quotes, is read back as the text by a reader of SQL literals,
-- which takes two quotes for one, and the reader stops at the last quote, whatever bytes the text
-- has, if no quote follows.
pub read_literal-escape_sql_string :
    (s rest : List ℕ)
    → starts_quoted rest ≡ false
    → read_literal (escape_sql_string s ++ (39 ∷ rest)) ≡ some (s, rest)
unfolding escape_sql_string replace_all
read_literal-escape_sql_string s rest h =
    rw (escape-doubled (length s) s (omega arith)) (read_literal-doubled s rest h)
