-- ===== src/Sync/Plan/Forces/Examples.antt =====
-- One of two targets is to be loaded in full.
use civic_soda_quack.Prelude.{String, false, List, [], ◌∷◌}
use civic_soda_quack.Prelude.Int.{pos}
use civic_soda_quack.Sync.{Target}
use civic_soda_quack.Sync.FullReplace.Examples.{no_swap}
use civic_soda_quack.Sync.Plan.{plan}
use civic_soda_quack.Sync.Plan.Forces.{Plans, plan-Plans}

abbrev target : String → Target
target x = record {
  id = x;
  name = x;
  effective = record {
    dataset_id = x;
    table = x;
    where_clause = "";
    order_by = ":id";
    batch_size = pos 5000;
    limit = pos 0;
    skip_columns = [];
    mode = "";
    hwm_column = "";
    checkpoint_every_n_pages = pos 0;
  };
}

abbrev targets : List Target
targets = target "a" ∷ target "b" ∷ []

plan-Plans_example : Plans no_swap "r1" 2 false ("b" ∷ []) targets (plan false ("b" ∷ []) targets)
plan-Plans_example = plan-Plans no_swap "r1" 2 false ("b" ∷ []) targets
