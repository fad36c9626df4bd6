-- ===== src/Investigate/Explain/Counts.antt =====
-- What the verdict of a report depends on.
use civic_soda_quack.Prelude.{
  ◌≡◌, refl, sym, ◌∙◌, Bool, true, false, ◌&&◌, ◌||◌, not, List, [], ◌∷◌, ◌++◌, any, arith, ltb,
}
use civic_soda_quack.Investigate.{flat, same_direction, Finding}
use civic_soda_quack.Investigate.Explain.{
  Verdict, evidence_supports, evidence_contradicts, evidence_mixed, evidence_insufficient, Tally,
  no_tally, verdict_of, tally_one, tally_from, tally, verdict, surviving,
}

module _ {F : Type 0} where
  abbrev pub speaks_for : Finding F → Bool
  speaks_for f = not f.withdrawn && not (same_direction f.direction flat) && f.supports

  abbrev pub speaks_against : Finding F → Bool
  speaks_against f = not f.withdrawn && not (same_direction f.direction flat) && not f.supports

-- The verdict of a body of evidence: whether some of it speaks for the claim, and some against it.
abbrev pub judged : Bool → Bool → Verdict
judged true true = evidence_mixed
judged true false = evidence_supports
judged false true = evidence_contradicts
judged false false = evidence_insufficient

module _ {A : Type 0} (p : A → Bool) where
  any-append : (xs ys : List A) → any p (xs ++ ys) ≡ (any p xs || any p ys)
  any-append [] ys = refl
  any-append (x ∷ xs) ys = ground (arith, any-append xs ys)

  any_swap : (xs ys : List A) → any p (xs ++ ys) ≡ any p (ys ++ xs)
  any_swap xs ys = ground (arith, any-append xs ys, any-append ys xs)

verdict_of-judged : (t : Tally) → verdict_of t ≡ judged (ltb 0 t.supporting) (ltb 0 t.against)
unfolding verdict_of
verdict_of-judged t = ground arith

module _ {F : Type 0} where
  tally_from-any :
      (t : Tally) (fs : List (Finding F))
      → (ltb 0 (tally_from t fs).supporting ≡ (ltb 0 t.supporting || any speaks_for fs))
        × (ltb 0 (tally_from t fs).against ≡ (ltb 0 t.against || any speaks_against fs))
  unfolding tally_from tally_one
  tally_from-any t [] = ground arith
  tally_from-any t (f ∷ fs) = ground (arith, tally_from-any (tally_one f t) fs)

  verdict-judged :
      (fs : List (Finding F)) → verdict fs ≡ judged (any speaks_for fs) (any speaks_against fs)
  unfolding verdict tally
  verdict-judged fs =
      verdict_of-judged (tally_from no_tally fs)
      ∙ rw ((tally_from-any no_tally fs).0, (tally_from-any no_tally fs).1) refl

  any-surviving-for : (fs : List (Finding F)) → any speaks_for (surviving fs) ≡ any speaks_for fs
  unfolding surviving
  any-surviving-for [] = refl
  any-surviving-for (f ∷ fs) = ground (arith, any-surviving-for fs)

  any-surviving-against :
      (fs : List (Finding F)) → any speaks_against (surviving fs) ≡ any speaks_against fs
  unfolding surviving
  any-surviving-against [] = refl
  any-surviving-against (f ∷ fs) = ground (arith, any-surviving-against fs)

  pub verdict-Judges :
      (fs gs : List (Finding F))
      → (verdict fs ≡ judged (any speaks_for fs) (any speaks_against fs))
        × (verdict (surviving fs) ≡ verdict fs)
        × (verdict (fs ++ gs) ≡ verdict (gs ++ fs))
  verdict-Judges fs gs = (
    verdict-judged fs,
    verdict-judged (surviving fs)
        ∙ rw (any-surviving-for fs, any-surviving-against fs) (sym (verdict-judged fs)),
    verdict-judged (fs ++ gs)
        ∙ rw (any_swap speaks_for fs gs, any_swap speaks_against fs gs)
            (sym (verdict-judged (gs ++ fs))),
  )
