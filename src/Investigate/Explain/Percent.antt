-- ===== src/Investigate/Explain/Percent.antt =====
-- The figures of a report.
use civic_soda_quack.Prelude.{
  ℕ, ◌≡◌, ◌⊎◌, refl, inl, inr, true, false, Option, none, some, if◌then◌else◌, arith, Bool-cases,
}
use civic_soda_quack.Prelude.Int.{ℤ, pos, ◌≤ℤ◌, ltb_ℤ}
use civic_soda_quack.Investigate.{Numbers, Evidence}
use civic_soda_quack.Investigate.Explain.{pct, answered, confidence}

cut_bounds :
    (n : ℤ)
    → let c = if ltb_ℤ n (pos 1) then pos 1 else if ltb_ℤ (pos 100) n then pos 100 else n in
      (pos 1 ≤ℤ c) × (c ≤ℤ pos 100)
cut_bounds n = ground arith

module _ {F : Type 0} (nm : Numbers F) where
  -- A percentage: 0 for nothing at all, and otherwise from 1 to 100.
  abbrev pub IsShareOf : F → ℤ → Type 0
  IsShareOf f n =
      ((nm.less_eq f nm.nought ≡ true) × (n ≡ pos 0))
      ⊎ ((nm.less_eq f nm.nought ≡ false) × (pos 1 ≤ℤ n) × (n ≤ℤ pos 100))

  pct-IsShareOf : (f : F) → IsShareOf f (pct nm f)
  unfolding pct
  pct-IsShareOf f = elim (Bool-cases (nm.less_eq f nm.nought)) [
    | inl y ↦ rw y (inl (refl, refl))
    | inr z ↦ rw z (
        let c = cut_bounds (nm.to_int (nm.plus (nm.times f nm.hundred) nm.half)) in
        inr (refl, c.0, c.1))
  ]

  pub confidence-IsShareOf :
      (e : Option (Evidence F)) (findings total : ℕ)
      → (let r = confidence nm e findings total in
          IsShareOf (answered nm findings total) r.coverage
          × ((r.assessed ≡ false) × (r.confidence ≡ pos 0)
              ⊎ (r.assessed ≡ true)
                × IsShareOf
                    (nm.times
                      (nm.over (nm.of_count r.retention) nm.hundred)
                      (answered nm findings total))
                    r.confidence))
  unfolding confidence
  confidence-IsShareOf none findings total =
      (pct-IsShareOf (answered nm findings total), inl (refl, refl))
  confidence-IsShareOf (some e) findings total = elim (Bool-cases e.assessed) [
    | inl y ↦ rw y (pct-IsShareOf (answered nm findings total), inr (refl, pct-IsShareOf _))
    | inr z ↦ rw z (pct-IsShareOf (answered nm findings total), inl (refl, refl))
  ]
