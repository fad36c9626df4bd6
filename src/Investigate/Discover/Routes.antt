-- ===== src/Investigate/Discover/Routes.antt =====
-- Which candidate a question is routed to.
use civic_soda_quack.Prelude.{
  ◌≡◌, refl, inl, inr, String, true, false, some, List, [], ◌∷◌, Result, ok, err, All, All-imp,
  All-append, ℕ, eq_refl, Bool-cases, Option-cases,
}
use civic_soda_quack.Prelude.Int.{ℤ}
use civic_soda_quack.Prelude.Sorts.{
  stable_sort, IsSorted, IsOrder, stable_sort-All, stable_sort-IsSorted,
}
use civic_soda_quack.Prelude.Sorts.Keeps.{stable_sort-Perm}
use mathlib.Core.List.{Perm}
use civic_soda_quack.Modes.{Strings}
use civic_soda_quack.Investigate.{Numbers, Investigation}
use civic_soda_quack.Investigate.Discover.{
  Candidate, Discovery, DiscoverError, no_match, ambiguous, unknown_investigation, has_more, scored,
  weight_of, normalise, by_name, candidate, matched_terms, sum_weights, found, choose, discover,
}

module _ {F : Type 0} where
  abbrev pub IsRegistered : List (Investigation F) → String → Type 0
  IsRegistered registry name = (inv : Investigation F) × (by_name registry name ≡ some inv)

  later-IsRegistered :
      (inv : Investigation F) (invs : List (Investigation F)) (name : String)
      → IsRegistered invs name
      → IsRegistered (inv ∷ invs) name
  unfolding by_name
  later-IsRegistered inv invs name (later, e) = (later, rw e refl)

  first-IsRegistered :
      (inv : Investigation F) (invs : List (Investigation F)) → IsRegistered (inv ∷ invs) inv.name
  unfolding by_name
  first-IsRegistered inv invs = elim (Option-cases (by_name invs inv.name)) [
    | inl e ↦ (inv, rw (e, eq_refl inv.name) refl)
    | inr (later, e) ↦ (later, rw e refl)
  ]

  -- Every investigation of the registry is found by its name.
  All-IsRegistered : (invs : List (Investigation F)) → All (λ inv. IsRegistered invs inv.name) invs
  All-IsRegistered [] = tt
  All-IsRegistered (inv ∷ invs) = (
    first-IsRegistered inv invs,
    All-imp (λ i. IsRegistered invs i.name) (λ i. IsRegistered (inv ∷ invs) i.name) invs
        (λ i. later-IsRegistered inv invs i.name) (All-IsRegistered invs),
  )

module _ {F : Type 0} (nm : Numbers F) (st : Strings) (of_int : ℤ → F) (weight : String → F)
    (P : String → Type 0) where
  candidate-All :
      (inv : Investigation F) (matched : List String)
      → P inv.name
      → All (λ c. P c.name) (candidate nm st of_int weight inv matched)
  candidate-All inv matched h =
      elim (Bool-cases (nm.less_eq (sum_weights nm weight nm.nought matched) nm.nought)) [
        | inl y ↦ rw y tt
        | inr z ↦ rw z (h, tt)
      ]

  -- A candidate has the name of an investigation.
  scored-All :
      (q : List ℕ) (invs : List (Investigation F))
      → All (λ inv. P inv.name) invs
      → All (λ c. P c.name) (scored nm st of_int weight q invs)
  unfolding scored
  scored-All q [] h = tt
  scored-All q (inv ∷ invs) h =
      All-append (λ c. P c.name) (candidate nm st of_int weight inv (matched_terms st q inv.terms))
        (scored nm st of_int weight q invs) (candidate-All inv (matched_terms st q inv.terms) h.0)
        (scored-All q invs h.1)

module _ {F : Type 0} (nm : Numbers F) where
  -- Of two scores, where neither is less nor both are the same, the other is less.
  abbrev pub IsTotal : Type 0
  IsTotal = (a b : F) → nm.less a b ≡ false → nm.same a b ≡ false → nm.less b a ≡ true

  -- No candidate of the list has more.
  abbrev pub IsTop : Candidate F → List (Candidate F) → Type 0
  IsTop c ds = All (λ d. nm.less c.score d.score ≡ false) ds

  module _ (order : IsOrder (has_more nm)) (total : IsTotal) where
    -- The second of a falling list is below the first, and so are all behind it.
    below_top :
        (a b : Candidate F) (ds : List (Candidate F))
        → nm.same a.score b.score ≡ false
        → IsSorted (has_more nm) (a ∷ b ∷ ds)
        → All (λ d. nm.less d.score a.score ≡ true) (b ∷ ds)
    below_top a b ds n h =
        let first = total a.score b.score h.0.0 n in
        (
          first,
          All-imp (λ d. nm.less b.score d.score ≡ false) (λ d. nm.less d.score a.score ≡ true) ds
              (λ d k. elim (Bool-cases (nm.less d.score a.score)) [
                | inl y ↦ y
                | inr z ↦ absurd (let e = order.trans b d a k z in cc)
              ])
              h.1.0,
        )

  module _ (st : Strings) (cities : List String) where
    -- What an answer says of the candidates in their order.
    abbrev pub Routed :
        List (Investigation F)
        → List (Candidate F)
        → Result (DiscoverError F) (Discovery F)
        → Type 0
    Routed registry sorted (err (no_match q)) = sorted ≡ []
    Routed registry sorted (err (ambiguous q a b)) =
        (rest : List (Candidate F)) × (sorted ≡ a ∷ b ∷ rest)
        × (nm.same a.score b.score ≡ true)
        × IsTop a (b ∷ rest)
    Routed registry sorted (err (unknown_investigation name)) = ⊥
    Routed registry sorted (ok d) =
        (top : Candidate F) × (sorted ≡ top ∷ d.alternatives)
        × (by_name registry top.name ≡ some d.investigation)
        × (d.score ≡ top.score)
        × (d.matched ≡ top.matched)
        × All (λ c. nm.less c.score top.score ≡ true) d.alternatives

    found-Routed :
        (registry : List (Investigation F)) (q : String) (top : Candidate F)
        (rest : List (Candidate F))
        → IsRegistered registry top.name
        → All (λ c. nm.less c.score top.score ≡ true) rest
        → Routed registry (top ∷ rest) (found nm st cities registry q top rest)
    unfolding found
    found-Routed registry q top rest (inv, e) h = rw (found, e) (top, refl, e, refl, refl, h)

    -- The candidates of a question.
    abbrev pub candidates : (ℤ → F) → List (Investigation F) → String → List (Candidate F)
    candidates of_int registry question =
        scored nm st of_int (weight_of nm st of_int registry) (normalise st question) registry

    module _ (order : IsOrder (has_more nm)) (total : IsTotal) where
      choose-Routed :
          (registry : List (Investigation F)) (q : String) (sorted : List (Candidate F))
          → All (λ c. IsRegistered registry c.name) sorted
          → IsSorted (has_more nm) sorted
          → Routed registry sorted (choose nm st cities registry q sorted)
      unfolding choose
      choose-Routed registry q [] known h = refl
      choose-Routed registry q (a ∷ []) known h = found-Routed registry q a [] known.0 tt
      choose-Routed registry q (a ∷ b ∷ rest) known h =
          elim (Bool-cases (nm.same a.score b.score)) [
            | inl y ↦ rw y (rest, refl, y, h.0)
            | inr z ↦
                rw z (
                  found-Routed registry q a (b ∷ rest) known.0 (below_top order total a b rest z h))
          ]

      -- Where the order of the scores is a strict weak one and scores that differ are ordered, a
      -- question is routed by its candidates, each once and in falling order: to the first, with
      -- the others in this order as alternatives that all score less; it is called ambiguous only
      -- between the first two, where these score the same and no other more, and no match only
      -- where there is no candidate. The chosen investigation is the one that the map of names has
      -- for its candidate, and it is never missing there.
      pub discover-Routed :
          (of_int : ℤ → F) (registry : List (Investigation F)) (question : String)
          → (sorted : List (Candidate F)) × Perm sorted (candidates of_int registry question)
            × IsSorted (has_more nm) sorted
            × Routed registry sorted (discover nm st cities of_int registry question)
      unfolding discover
      discover-Routed of_int registry question =
          let cs = candidates of_int registry question in
          (
            stable_sort (has_more nm) cs,
            stable_sort-Perm (has_more nm) cs,
            stable_sort-IsSorted (has_more nm) order cs,
            choose-Routed registry question (stable_sort (has_more nm) cs)
                ((stable_sort-All (has_more nm) (λ c. IsRegistered registry c.name) cs).1 (
                  scored-All nm st of_int (weight_of nm st of_int registry) (IsRegistered registry)
                    (normalise st question) registry (All-IsRegistered registry)))
                (stable_sort-IsSorted (has_more nm) order cs),
          )
