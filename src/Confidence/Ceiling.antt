-- ===== src/Confidence/Ceiling.antt =====
-- That the score of a report is a ceiling: no dataset behind it did worse.
use civic_soda_quack.Prelude.{
  ℕ, zero, suc, ◌+◌, ◌≡◌, ◌≤◌, ◌<◌, refl, ap, true, false, List, [], ◌∷◌, ◌++◌, map, any, arith,
  Bool-cases, inl, inr,
}
use civic_soda_quack.Confidence.{
  Floats, Signal, DatasetReport, Report, counts, clamp, pct_of, factors, scored_by, score_signals,
  gaps, with_score, gather, settled_report, finalize,
}

-- What is relied on of floats that are not NaN: their order is total, and a product with a factor between
-- 0 and 1 is rounded monotonically.
pub record IsOrdered {F : Type 0} (fl : Floats F) : Type 0 where
  pub le_refl : (a : F) → fl.less_eq a a ≡ true
  pub le_trans : (a b c : F) → fl.less_eq a b ≡ true → fl.less_eq b c ≡ true → fl.less_eq a c ≡ true
  pub not_less : (a b : F) → fl.less a b ≡ false → fl.less_eq b a ≡ true
  pub nought_le_one : fl.less_eq fl.nought fl.one ≡ true
  pub times_positive :
      (a c : F)
      → fl.less_eq fl.nought a ≡ true
      → fl.less_eq fl.nought c ≡ true
      → fl.less_eq fl.nought (fl.times a c) ≡ true
  pub times_falls :
      (a c : F)
      → fl.less_eq fl.nought a ≡ true
      → fl.less_eq c fl.one ≡ true
      → fl.less_eq (fl.times a c) a ≡ true
  pub times_monotone :
      (a b c : F)
      → fl.less_eq a b ≡ true
      → fl.less_eq fl.nought c ≡ true
      → fl.less_eq (fl.times a c) (fl.times b c) ≡ true
  pub percent_monotone : (a b : F) → fl.less_eq a b ≡ true → fl.percent a ≤ fl.percent b

module _ {F : Type 0} (fl : Floats F) (laws : IsOrdered fl) where
  abbrev pub Le : F → F → Type 0
  Le a b = fl.less_eq a b ≡ true

  clamp_positive : (f : F) → Le fl.nought (clamp fl f)
  unfolding clamp
  clamp_positive f = elim (Bool-cases (fl.less f fl.nought)) [
    | inl y ↦ rw y (laws.le_refl fl.nought)
    | inr n ↦ rw n (elim (Bool-cases (fl.less fl.one f)) [
      | inl y ↦ rw y laws.nought_le_one
      | inr m ↦ rw m (laws.not_less f fl.nought n)
    ])
  ]

  clamp_le_one : (f : F) → Le (clamp fl f) fl.one
  unfolding clamp
  clamp_le_one f = elim (Bool-cases (fl.less f fl.nought)) [
    | inl y ↦ rw y laws.nought_le_one
    | inr n ↦ rw n (elim (Bool-cases (fl.less fl.one f)) [
      | inl y ↦ rw y (laws.le_refl fl.one)
      | inr m ↦ rw m (laws.not_less fl.one f m)
    ])
  ]

  pct_of_monotone : (a b : F) → Le a b → pct_of fl a ≤ pct_of fl b
  unfolding pct_of
  pct_of_monotone a b h = elim (Bool-cases (fl.less_eq a fl.nought)) [
    | inl y ↦ rw y (omega arith)
    | inr n ↦ elim (Bool-cases (fl.less_eq b fl.nought)) [
      | inl y ↦ absurd (cc (laws.le_trans a b fl.nought h y, n))
      | inr m ↦ rw (n, m) (ground (arith, laws.percent_monotone a b h))
    ]
  ]

  pct_of_at_most : (a : F) → pct_of fl a ≤ 100
  unfolding pct_of
  pct_of_at_most a = ground arith

  -- A product only falls, stays positive, and is below that of a larger start.
  record Falls (a p q : F) : Type 0 where
    pub positive : Le fl.nought p
    pub falls : Le p a
    pub below : Le p q

  factors_fall :
      (ss : List (Signal F)) (a b : F) (m n : ℕ)
      → Le fl.nought a
      → Le a b
      → Falls a (factors fl a m ss).0 (factors fl b n ss).0
  unfolding factors
  factors_fall [] a b m n h k = record { positive = h; falls = laws.le_refl a; below = k }
  factors_fall (s ∷ ss) a b m n h k = elim (Bool-cases (counts s)) [
    | inl y ↦ rw y (
        let c = clamp fl s.score in
        let ih =
          factors_fall ss (fl.times a c) (fl.times b c) (suc m) (suc n)
            (laws.times_positive a c h (clamp_positive s.score))
            (laws.times_monotone a b c k (clamp_positive s.score)) in
        record {
          positive = ih.positive;
          falls = laws.le_trans _ _ _ ih.falls (laws.times_falls a c h (clamp_le_one s.score));
          below = ih.below;
        })
    | inr z ↦ rw z (factors_fall ss a b m n h k)
  ]

  factors_self :
      (ss : List (Signal F)) (a : F) (m : ℕ)
      → Le fl.nought a
      → Le fl.nought (factors fl a m ss).0 × Le (factors fl a m ss).0 a
  factors_self ss a m h =
      let f = factors_fall ss a a m m h (laws.le_refl a) in (f.positive, f.falls)

  gather_falls :
      (ds : List (DatasetReport F)) (a : F) (m k : ℕ)
      → Le fl.nought a
      → Le (gather fl a m k ds).0.0 a
  unfolding gather
  gather_falls [] a m k h = laws.le_refl a
  gather_falls (d ∷ ds) a m k h =
      let (positive, falls) = factors_self d.signals a m h in
      laws.le_trans _ _ _
        (gather_falls ds (factors fl a m d.signals).0 (factors fl a m d.signals).1
          (k + gaps fl d.signals) positive)
        falls

  gather_below :
      (before after : List (DatasetReport F)) (d : DatasetReport F) (a : F) (m k n : ℕ)
      → Le fl.nought a
      → Le a fl.one
      → Le (gather fl a m k (before ++ (d ∷ after))).0.0 (factors fl fl.one n d.signals).0
  unfolding gather
  gather_below [] after d a m k n h l =
      let f = factors_fall d.signals a fl.one m n h l in
      laws.le_trans _ _ _ (gather_falls after _ _ _ f.positive) f.below
  gather_below (x ∷ before) after d a m k n h l =
      let (positive, falls) = factors_self x.signals a m h in
      gather_below before after d (factors fl a m x.signals).0 (factors fl a m x.signals).1
        (k + gaps fl x.signals) n positive (laws.le_trans _ _ _ falls l)

  factors_counted : (ss : List (Signal F)) (a : F) (m : ℕ) → m ≤ (factors fl a m ss).1
  unfolding factors
  factors_counted [] a m = omega arith
  factors_counted (s ∷ ss) a m =
      let more = factors_counted ss (fl.times a (clamp fl s.score)) (suc m) in
      let same = factors_counted ss a m in ground arith

  factors_some :
      (ss : List (Signal F)) (a : F) (m : ℕ) → any counts ss ≡ true → m < (factors fl a m ss).1
  unfolding factors
  factors_some [] a m h = cc
  factors_some (s ∷ ss) a m h = elim (Bool-cases (counts s)) [
    | inl y ↦ rw y (omega (arith, factors_counted ss (fl.times a (clamp fl s.score)) (suc m)))
    | inr n ↦ rw n (factors_some ss a m (ground arith))
  ]

  gather_counted : (ds : List (DatasetReport F)) (a : F) (m k : ℕ) → m ≤ (gather fl a m k ds).0.1
  unfolding gather
  gather_counted [] a m k = omega arith
  gather_counted (d ∷ ds) a m k = omega (
    arith,
    factors_counted d.signals a m,
    gather_counted ds (factors fl a m d.signals).0 (factors fl a m d.signals).1
        (k + gaps fl d.signals),
  )

  gather_some :
      (before after : List (DatasetReport F)) (d : DatasetReport F) (a : F) (m k : ℕ)
      → any counts d.signals ≡ true
      → 0 < (gather fl a m k (before ++ (d ∷ after))).0.1
  unfolding gather
  gather_some [] after d a m k h = omega (
    arith,
    factors_some d.signals a m h,
    gather_counted after (factors fl a m d.signals).0 (factors fl a m d.signals).1
        (k + gaps fl d.signals),
  )
  gather_some (x ∷ before) after d a m k h =
      gather_some before after d (factors fl a m x.signals).0 (factors fl a m x.signals).1
        (k + gaps fl x.signals) h

  map-split :
      (before after : List (DatasetReport F)) (d : DatasetReport F)
      → map (with_score fl) (before ++ (d ∷ after))
        ≡ map (with_score fl) before ++ (with_score fl d ∷ map (with_score fl) after)
  map-split [] after d = refl
  map-split (x ∷ before) after d = ap (λ l. with_score fl x ∷ l) (map-split before after d)

  -- The report is assessed, with a score that is below a dataset's and at most 100.
  abbrev pub Within : Report F → ℕ → Type 0
  Within r bound = (r.assessed ≡ true) × (r.score ≤ bound) × (r.score ≤ 100)

  settled-Within :
      (r : Report F) (ds : List (DatasetReport F)) (out : (F × ℕ) × ℕ) (p : F)
      → Le out.0.0 p
      → 0 < out.0.1
      → Within (settled_report fl r ds out) (pct_of fl p)
  unfolding settled_report
  settled-Within r ds ((product, zero), missing) p h c = absurd (omega arith)
  settled-Within r ds ((product, suc measured), missing) p h c =
      (refl, pct_of_monotone product p h, pct_of_at_most product)

  scored_by_some : (out : F × ℕ) → 0 < out.1 → (scored_by fl out).0 ≡ pct_of fl out.0
  scored_by_some (product, zero) h = absurd (omega arith)
  scored_by_some (product, suc measured) h = refl

  -- For floats that are not NaN and are rounded monotonically, a report with a dataset of which a
  -- scored check was measured is assessed, and its score is at most that dataset's score and at
  -- most 100, whatever its other datasets are.
  pub finalize_ceiling :
      (r : Report F) (before after : List (DatasetReport F)) (d : DatasetReport F)
      → r.datasets ≡ before ++ (d ∷ after)
      → any counts d.signals ≡ true
      → Within (finalize fl r) (with_score fl d).score
  unfolding finalize with_score score_signals
  finalize_ceiling r before after d e h =
      rw (scored_by_some (factors fl fl.one 0 d.signals) (factors_some d.signals fl.one 0 h)) (
        settled-Within r (map (with_score fl) r.datasets) _ _
          (rw (e, map-split before after d)
            (gather_below (map (with_score fl) before) (map (with_score fl) after) (with_score fl d)
              fl.one 0 0 0 laws.nought_le_one (laws.le_refl fl.one)))
          (rw (e, map-split before after d)
            (gather_some (map (with_score fl) before) (map (with_score fl) after) (with_score fl d)
              fl.one 0 0 h)))
