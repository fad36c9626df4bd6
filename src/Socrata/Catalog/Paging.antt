-- ===== src/Socrata/Catalog/Paging.antt =====
-- What paging through a catalog gathers.
use civic_soda_quack.Prelude.{
  ℕ, zero, suc, ◌+◌, ◌-◌, ◌≤◌, ◌<◌, min, ◌≡◌, ap, ◌∙◌, inl, inr, ◌||◌, Option, some, List, ◌++◌,
  length, take, drop, length-take, length-drop, take_all, take-length-take, sym, take-append-take,
  Result, ok, leb, ◌==◌, arith, Bool-cases,
}
use civic_soda_quack.Socrata.Catalog.{after_catalog_page, fetch_from, fetch_catalog}

-- The portal holds `all`. Its pages may be shorter than asked for, but are not empty before the end,
-- and the total that it reports is at least the number of entries.
module _ {A E : Type 0} (all : List A) (page_size : ℕ) (size total : ℕ → ℕ)
    (some_rows : (n : ℕ) → 0 < size n) (enough_reported : (n : ℕ) → length all ≤ total n) where
  abbrev pages : ℕ → ℕ → Unit {0} → Result E (List A × ℕ) × Unit {0}
  pages limit offset w = (ok (take (size offset) (drop offset all), total offset), w)

  -- A round ends with all the entries, or goes on from further ahead.
  gathered :
      (n k : ℕ) (rest : List A → ℕ → Unit {0} → Option (Result E (List A)) × Unit {0})
      → n ≤ length all
      → 0 < k
      → ((m : ℕ) → n < m → m ≤ length all → rest (take m all) m tt ≡ (some (ok all), tt))
      → after_catalog_page pages page_size rest
          (take n all)
          n
          (ok (take k (drop n all), total n))
          tt
        ≡ (some (ok all), tt)
  unfolding after_catalog_page
  gathered n k rest inside pos next =
      let page = take k (drop n all) in
      let counted : length page ≡ min k (length all - n) =
        length-take k (drop n all) ∙ ap (min k) (length-drop n all) in
      let joined : take n all ++ page ≡ take (n + length page) all =
        ap (λ l. take n all ++ l) (sym (take-length-take k (drop n all)))
        ∙ take-append-take n (length page) all in
      let reported = enough_reported n in
      rw joined (elim (Bool-cases (length page == 0 || leb (total n) (n + length page))) [
        | inl stop ↦ rw stop (
            ap (λ l. (some (ok l), tt))
              (take_all (n + length page) all (ground (arith, counted, reported))))
        | inr go ↦ rw go (next (n + length page) (ground arith) (omega (arith, counted)))
      ])

  fetch_from_lem :
      (fuel n : ℕ)
      → n ≤ length all
      → length all - n < fuel
      → fetch_from pages page_size fuel (take n all) n tt ≡ (some (ok all), tt)
  unfolding fetch_from
  fetch_from_lem zero n inside h = elim h [ ]
  fetch_from_lem (suc fuel) n inside h =
      gathered n (size n) (fetch_from pages page_size fuel) inside (some_rows n)
        (λ m ahead fits. fetch_from_lem fuel m fits (omega arith))

  -- From a portal whose pages are not empty before the end and whose reported total is at least
  -- the number of entries, and with more fuel than there are entries, the fetched catalog is every
  -- entry, each once and in order.
  pub fetch_catalog_complete :
      (fuel : ℕ) → length all < fuel → fetch_catalog pages page_size fuel tt ≡ (some (ok all), tt)
  unfolding fetch_catalog
  fetch_catalog_complete fuel h = fetch_from_lem fuel 0 (omega arith) (omega arith)
