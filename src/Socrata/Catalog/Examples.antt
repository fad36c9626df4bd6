-- ===== src/Socrata/Catalog/Examples.antt =====
-- A catalog of three entries in pages of two.
use civic_soda_quack.Prelude.{ℕ, ◌≡◌, some, List, [], ◌∷◌, ok, take, drop, arith}
use civic_soda_quack.Socrata.Catalog.{fetch_catalog}
use civic_soda_quack.Socrata.Catalog.Paging.{fetch_catalog_complete}

abbrev entries : List ℕ
entries = 1 ∷ 2 ∷ 3 ∷ []

fetch_catalog_complete_example :
    fetch_catalog {E = Unit {0}}
      (λ limit offset w. (ok (take 2 (drop offset entries), 3), w))
      2
      4
      tt
    ≡ (some (ok entries), tt)
fetch_catalog_complete_example =
    fetch_catalog_complete {E = Unit {0}} entries 2 (λ n. 2) (λ n. 3) (λ n. omega arith)
      (λ n. omega arith) 4 (omega arith)
