-- ===== src/Investigate/Explain/Caveats.antt =====
-- The list of limits that a report carries.
use civic_soda_quack.Prelude.{
  ◌≡◌, sym, ap, ◌∙◌, String, Bool, ◌&&◌, ◌||◌, not, List, [], ◌∷◌, ◌++◌, str_eq, arith, any,
  append-nil, append_assoc,
}
use civic_soda_quack.Prelude.Texts.{
  contains, NoRepeats, add_trimmed, add_trimmed-contains, add_trimmed-NoRepeats,
  add_trimmed-Extends,
}
use civic_soda_quack.Investigate.{Arg, Validation, Analysis, Plan}
use civic_soda_quack.Investigate.Explain.{
  add_caveats, caveats, finding_caveats, unanswered_caveats, skipped_caveats, standing_caveats,
}

module _ (trim : String → String) where
  -- Some text of the list is this one without the spaces around it.
  abbrev pub offers : List String → String → Bool
  offers ss x = any (λ s. str_eq (trim s) x) ss

  add_caveats-contains :
      (out ss : List String) (x : String)
      → contains (add_caveats trim out ss) x
        ≡ (contains out x || (not (str_eq x "") && offers ss x))
  unfolding add_caveats
  add_caveats-contains out [] x = ground arith
  add_caveats-contains out (s ∷ ss) x =
      ground (
        arith,
        add_caveats-contains (add_trimmed trim s out) ss x,
        add_trimmed-contains trim s x out,
      )

  pub add_caveats-NoRepeats :
      (out ss : List String) → NoRepeats out → NoRepeats (add_caveats trim out ss)
  unfolding add_caveats
  add_caveats-NoRepeats out [] h = h
  add_caveats-NoRepeats out (s ∷ ss) h =
      add_caveats-NoRepeats (add_trimmed trim s out) ss (add_trimmed-NoRepeats trim s out h)

  add_caveats-Extends :
      (out ss : List String) → (new : List String) × (add_caveats trim out ss ≡ out ++ new)
  unfolding add_caveats
  add_caveats-Extends out [] = ([], sym (append-nil out))
  add_caveats-Extends out (s ∷ ss) =
      let a = add_trimmed-Extends trim s out in
      let b = add_caveats-Extends (add_trimmed trim s out) ss in
      (a.0 ++ b.0, b.1 ∙ ap (λ l. l ++ b.0) a.1 ∙ append_assoc out a.0 b.0)

  pub add_caveats-Gathers :
      (out ss : List String)
      → NoRepeats out
      → NoRepeats (add_caveats trim out ss)
        × ((new : List String) × (add_caveats trim out ss ≡ out ++ new))
        × ((x : String)
            → contains (add_caveats trim out ss) x
              ≡ (contains out x || (not (str_eq x "") && offers ss x)))
  add_caveats-Gathers out ss h =
      (add_caveats-NoRepeats out ss h, add_caveats-Extends out ss, add_caveats-contains out ss)

module _ {F : Type 0} (trim : String → String) (sprintf : String → List (Arg F) → String) where
  pub caveats-NoRepeats :
      (v : Validation F) (a : Analysis F) (plan : Plan F)
      → NoRepeats (caveats trim sprintf v a plan)
  unfolding caveats
  caveats-NoRepeats v a plan =
      add_caveats-NoRepeats trim []
        (v.notes
          ++ finding_caveats sprintf a.findings
          ++ unanswered_caveats sprintf a.unanswered
          ++ skipped_caveats sprintf plan.probes
          ++ standing_caveats a.findings)
        tt
