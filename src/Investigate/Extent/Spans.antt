-- ===== src/Investigate/Extent/Spans.antt =====
-- The years that a measured coverage calls complete.
use civic_soda_quack.Prelude.{
  ◌≡◌, ◌⊎◌, ◌↔◌, inl, inr, true, false, if◌then◌else◌, arith, Bool-cases,
}
use civic_soda_quack.Prelude.Int.{ℤ, pos, ◌+ℤ◌, ◌-ℤ◌, ◌≤ℤ◌, ltb_ℤ, +ℤ_parts, -ℤ_parts, eqb_ℤ→eq}
use civic_soda_quack.Investigate.{Coverage}
use civic_soda_quack.Investigate.Extent.{Times, spanned, starts_late, ends_early}

abbrev Order : ℤ → ℤ → Type 0
Order a b = (ltb_ℤ a b ≡ true) ⊎ ((a ≡ b) ⊎ (ltb_ℤ b a ≡ true))

compared : (a b : ℤ) → Order a b
compared a b = elim (Bool-cases (ltb_ℤ a b)) [
  | inl y ↦ inl y
  | inr z ↦ elim (Bool-cases (ltb_ℤ b a)) [
    | inl y ↦ inr (inr y)
    | inr w ↦ inr (inl (eqb_ℤ→eq a b (ground arith)))
  ]
]

module _ {T : Type 0} (ts : Times T) where
  -- A time lies behind the first day of an earlier year and not behind that of a later one, and in the
  -- same way for the last day.
  pub record IsCalendar : Type 0 where
    pub after_earlier :
        (t : T) (y : ℤ) → ltb_ℤ y (ts.year t) ≡ true → ts.is_after t (ts.date t y 1 1) ≡ true
    pub after_later :
        (t : T) (y : ℤ) → ltb_ℤ (ts.year t) y ≡ true → ts.is_after t (ts.date t y 1 1) ≡ false
    pub before_earlier :
        (t : T) (y : ℤ) → ltb_ℤ y (ts.year t) ≡ true → ts.is_before t (ts.date t y 12 31) ≡ false
    pub before_later :
        (t : T) (y : ℤ) → ltb_ℤ (ts.year t) y ≡ true → ts.is_before t (ts.date t y 12 31) ≡ true

  -- No day of the year lies outside the record.
  abbrev pub Spans : T → T → ℤ → Type 0
  Spans first last y =
      (ts.is_after first (ts.date first y 1 1) ≡ false)
      × (ts.is_before last (ts.date last y 12 31) ≡ false)

  module _ (cal : IsCalendar) where
    first_iff :
        (t : T) (y : ℤ) (c : Order y (ts.year t))
        → ((if starts_late ts t then ts.year t +ℤ pos 1 else ts.year t) ≤ℤ y)
          ↔ (ts.is_after t (ts.date t y 1 1) ≡ false)
    first_iff t y c = elim c [
      | inl lt ↦ rw (cal.after_earlier t y lt) (ground (arith, +ℤ_parts (ts.year t) (pos 1)))
      | inr (inl e) ↦ rw e (ground (arith, +ℤ_parts (ts.year t) (pos 1)))
      | inr (inr gt) ↦ rw (cal.after_later t y gt) (ground (arith, +ℤ_parts (ts.year t) (pos 1)))
    ]

    last_iff :
        (t : T) (y : ℤ) (c : Order y (ts.year t))
        → (y ≤ℤ (if ends_early ts t then ts.year t -ℤ pos 1 else ts.year t))
          ↔ (ts.is_before t (ts.date t y 12 31) ≡ false)
    last_iff t y c = elim c [
      | inl lt ↦ rw (cal.before_earlier t y lt) (ground (arith, -ℤ_parts (ts.year t) (pos 1)))
      | inr (inl e) ↦ rw e (ground (arith, -ℤ_parts (ts.year t) (pos 1)))
      | inr (inr gt) ↦ rw (cal.before_later t y gt) (ground (arith, -ℤ_parts (ts.year t) (pos 1)))
    ]

    -- On a calendar whose years follow each other, the complete years of a record are exactly
    -- those of which neither the midnight that begins the first day lies before the first record
    -- nor the midnight that begins the last day lies behind the last one.
    pub spanned_iff :
        (first last : T) (cov : Coverage) (y : ℤ)
        → (((spanned ts first last cov).first_complete ≤ℤ y)
            × (y ≤ℤ (spanned ts first last cov).last_complete))
          ↔ Spans first last y
    unfolding spanned
    spanned_iff first last cov y =
        let a = first_iff first y (compared y (ts.year first)) in
        let b = last_iff last y (compared y (ts.year last)) in
        ((λ h. (a.0 h.0, b.0 h.1)), (λ h. (a.1 h.0, b.1 h.1)))
