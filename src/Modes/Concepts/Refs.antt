-- ===== src/Modes/Concepts/Refs.antt =====
-- The concepts that a statement refers to.
use Prim.Native.String.{len}
use mathlib.Core.Path.{subst}
use civic_soda_quack.Prelude.{
  ℕ, zero, suc, ◌+◌, ◌≡◌, ◌<◌, ◌↔◌, ◌⊎◌, refl, sym, ap, ◌∙◌, inl, inr, String, true, false, Option,
  none, some, List, [], ◌∷◌, All, Any, str_eq, eq_iff, eq_refl, arith, Bool-cases, Option-cases,
}
use civic_soda_quack.Prelude.Texts.{contains, add_trimmed, add_trimmed-contains}
use civic_soda_quack.Modes.{Strings}
use civic_soda_quack.Modes.Concepts.{refs_from, concept_refs}

pub All-iff :
    (P : String → Type 0) (xs : List String)
    → All P xs ↔ ((x : String) → contains xs x ≡ true → P x)
All-iff P [] = ((λ h x k. absurd cc), (λ h. tt))
All-iff P (y ∷ ys) =
    let rest = All-iff P ys in
    (
      (λ h x k. elim (Bool-cases (str_eq y x)) [
        | inl e ↦ subst P ((eq_iff y x).0 e) h.0
        | inr z ↦ rest.0 h.1 x (ground arith)
      ]),
      (λ h. (h y (rw (eq_refl y) refl), rest.1 (λ x k. h x (ground arith)))),
    )

Any-some :
    (P : String → Type 0) (xs : List String)
    → Any P xs
    → (x : String) × (contains xs x ≡ true) × P x
Any-some P [] h = absurd h
Any-some P (y ∷ ys) (inl p) = (y, rw (eq_refl y) refl, p)
Any-some P (y ∷ ys) (inr h) = let r = Any-some P ys h in (r.0, ground (arith, r.1), r.2)

-- What stands before and behind a text that is cut out is the rest.
abbrev pub IsCut : Strings → Type 0
IsCut st = (s part a b : String) → st.cut s part ≡ some (a, b) → len a + len part + len b ≡ len s

-- A name that is not empty stands between the brackets of some reference.
pub data Refers (st : Strings) : String → String → Type 0 where
  here :
      (s a behind raw after name : String)
      → st.cut s "{{c:" ≡ some (a, behind)
      → st.cut behind "}}" ≡ some (raw, after)
      → st.trim raw ≡ name
      → str_eq name "" ≡ false
      → Refers st s name
  there :
      (s a behind raw after name : String)
      → st.cut s "{{c:" ≡ some (a, behind)
      → st.cut behind "}}" ≡ some (raw, after)
      → Refers st after name
      → Refers st s name

module _ (st : Strings) where
  -- The first reference of a statement, or a later one.
  abbrev First : String → String → String → Type 0
  First raw after name = ((st.trim raw ≡ name) × (str_eq name "" ≡ false)) ⊎ Refers st after name

  pair_eq :
      {a b c d : String}
      → ◌≡◌ {A = Option (String × String)} (some (a, b)) (some (c, d))
      → (a ≡ c) × (b ≡ d)
  pair_eq h = (cc, cc)

  Refers-First :
      (s a behind raw after name : String)
      → st.cut s "{{c:" ≡ some (a, behind)
      → st.cut behind "}}" ≡ some (raw, after)
      → Refers st s name
      → First raw after name
  Refers-First s a behind raw after name c d (here t x y z w n e f g h) =
      let p = pair_eq (sym c ∙ e) in
      let r = pair_eq (sym d ∙ ap (λ k. st.cut k "}}") p.1 ∙ f) in inl (ap st.trim r.0 ∙ g, h)
  Refers-First s a behind raw after name c d (there t x y z w n e f g) =
      let p = pair_eq (sym c ∙ e) in
      let r = pair_eq (sym d ∙ ap (λ k. st.cut k "}}") p.1 ∙ f) in
      inr (subst (λ k. Refers st k name) (sym r.1) g)

  no_opening : (s name : String) → st.cut s "{{c:" ≡ none → Refers st s name → ⊥
  no_opening s name c (here t x y z w n e f g h) = cc
  no_opening s name c (there t x y z w n e f g) = cc

  no_closing :
      (s a behind name : String)
      → st.cut s "{{c:" ≡ some (a, behind)
      → st.cut behind "}}" ≡ none
      → Refers st s name
      → ⊥
  no_closing s a behind name c d (here t x y z w n e f g h) =
      let p = pair_eq (sym c ∙ e) in let q : st.cut y "}}" ≡ none = rw (← p.1) d in cc
  no_closing s a behind name c d (there t x y z w n e f g) =
      let p = pair_eq (sym c ∙ e) in let q : st.cut y "}}" ≡ none = rw (← p.1) d in cc

  added_iff :
      (raw : String) (out : List String) (name : String)
      → (contains (add_trimmed st.trim raw out) name ≡ true)
        ↔ ((contains out name ≡ true) ⊎ ((st.trim raw ≡ name) × (str_eq name "" ≡ false)))
  added_iff raw out name =
      ground (arith, add_trimmed-contains st.trim raw name out, eq_iff (st.trim raw) name)

  module _ (cuts : IsCut st) where
    shorter :
        (s a behind raw after : String)
        → st.cut s "{{c:" ≡ some (a, behind)
        → st.cut behind "}}" ≡ some (raw, after)
        → len after < len s
    shorter s a behind raw after c d =
        omega (arith, cuts s "{{c:" a behind c, cuts behind "}}" raw after d)

    refs_from_iff :
        (fuel : ℕ) (out : List String) (s name : String)
        → len s < fuel
        → (contains (refs_from st fuel out s) name ≡ true)
          ↔ ((contains out name ≡ true) ⊎ Refers st s name)
    unfolding refs_from
    refs_from_iff zero out s name h = absurd (omega (arith, h))
    refs_from_iff (suc fuel) out s name h = elim (Option-cases (st.cut s "{{c:")) [
      | inl e ↦
          rw (refs_from, e)
            ((λ k. inl k), (λ k. elim k [ inl x ↦ x | inr r ↦ absurd (no_opening s name e r) ]))
      | inr ((a, behind), e) ↦ elim (Option-cases (st.cut behind "}}")) [
        | inl f ↦
            rw (refs_from, e, f)
              (
                (λ k. inl k),
                (λ k. elim k [ inl x ↦ x | inr r ↦ absurd (no_closing s a behind name e f r) ]),
              )
        | inr ((raw, after), f) ↦
            let rest =
              refs_from_iff fuel (add_trimmed st.trim raw out) after name
                (omega (arith, h, shorter s a behind raw after e f)) in
            let added = added_iff raw out name in
            rw (refs_from, e, f)
              (
                (λ k. elim (rest.0 k) [
                  | inl x ↦ elim (added.0 x) [
                    | inl y ↦ inl y
                    | inr y ↦ inr (here s a behind raw after name e f y.0 y.1)
                  ]
                  | inr r ↦ inr (there s a behind raw after name e f r)
                ]),
                (λ k. rest.1 (elim k [
                  | inl x ↦ inl (added.1 (inl x))
                  | inr r ↦ elim (Refers-First s a behind raw after name e f r) [
                    | inl y ↦ inl (added.1 (inr y))
                    | inr t ↦ inr t
                  ]
                ])),
              )
      ]
    ]

    pub concept_refs_iff :
        (sql name : String) → (contains (concept_refs st sql) name ≡ true) ↔ Refers st sql name
    unfolding concept_refs
    concept_refs_iff sql name =
        let i = refs_from_iff (suc (len sql)) [] sql name (omega arith) in
        ((λ h. elim (i.0 h) [ inl x ↦ cc | inr r ↦ r ]), (λ r. i.1 (inr r)))

    -- What holds of all references of a statement.
    pub concept_refs-All :
        (P : String → Type 0) (sql : String)
        → All P (concept_refs st sql) ↔ ((name : String) → Refers st sql name → P name)
    concept_refs-All P sql =
        let a = All-iff P (concept_refs st sql) in
        (
          (λ h name r. a.0 h name ((concept_refs_iff sql name).1 r)),
          (λ h. a.1 (λ name k. h name ((concept_refs_iff sql name).0 k))),
        )

    -- What holds of some reference.
    pub concept_refs-Any :
        (P : String → Type 0) (sql : String)
        → Any P (concept_refs st sql)
        → (name : String) × Refers st sql name × P name
    concept_refs-Any P sql h =
        let a = Any-some P (concept_refs st sql) h in (a.0, (concept_refs_iff sql a.0).0 a.1, a.2)
