-- ===== src/Duckdb/Diff/Examples.antt =====
-- Drift of a table whose column `b` became a number.
use civic_soda_quack.Prelude.{String, none, List, [], ◌∷◌, ok, map}
use civic_soda_quack.Duckdb.Diff.{diff_schema, Listing}
use civic_soda_quack.Duckdb.Diff.Drift.{Reports, diff_schema-Reports}

abbrev wanted : List (String × String)
wanted = ("socrata_id", "VARCHAR") ∷ ("b", "DOUBLE") ∷ []

abbrev live : List (String × String)
live = ("socrata_id", "VARCHAR") ∷ ("b", "VARCHAR") ∷ []

abbrev listed : Listing String
listed = ok (map ok live, none)

diff_schema-Reports_example : Reports (λ s. s) wanted listed (diff_schema (λ s. s) wanted listed)
diff_schema-Reports_example = diff_schema-Reports (λ s. s) wanted listed
