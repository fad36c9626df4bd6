-- ===== src/Confidence/Targets/Examples.antt =====
-- Three targets, two of which name one dataset.
use civic_soda_quack.Prelude.{◌≡◌, ◌∙◌, String, true, List, [], ◌∷◌, str_eq, eq_iff}
use civic_soda_quack.Confidence.Targets.{EvidenceTarget, merge_by_dataset}
use civic_soda_quack.Confidence.Targets.Merged.{Merges, merge_by_dataset-Merges}

abbrev three_targets : List EvidenceTarget
three_targets =
    record { portal = "p"; table = "calls"; dataset_id = "aaaa-bbbb"; columns = "status" ∷ [] }
    ∷ record { portal = "p"; table = "permits"; dataset_id = "cccc-dddd"; columns = [] }
    ∷ record { portal = "p"; table = "calls"; dataset_id = "aaaa-bbbb"; columns = "zip" ∷ [] }
    ∷ []

str_eq-trans : (a b c : String) → str_eq a b ≡ true → str_eq b c ≡ true → str_eq a c ≡ true
str_eq-trans a b c h k = (eq_iff a c).1 ((eq_iff a b).0 h ∙ (eq_iff b c).0 k)

merge_by_dataset-Merges_example :
    Merges str_eq str_eq-trans three_targets (merge_by_dataset str_eq three_targets)
merge_by_dataset-Merges_example = merge_by_dataset-Merges str_eq str_eq-trans three_targets
