-- ===== src/Sync/FullReplace/Examples.antt =====
-- Loads on a world that counts the dropped staging tables, where the swap fails.
use civic_soda_quack.Prelude.{ℕ, suc, none, [], ok, err}
use civic_soda_quack.Prelude.Int.{pos}
use civic_soda_quack.Sync.{Target}
use civic_soda_quack.Sync.Incremental.{Calls}
use civic_soda_quack.Sync.Incremental.Clean.{LeavesClean}
use civic_soda_quack.Sync.FullReplace.{staging_name, full_replace}
use civic_soda_quack.Sync.FullReplace.Cleans.{full_replace-LeavesClean}

abbrev pub no_swap : Calls ℕ ℕ (Unit {0}) ℕ
no_swap = record {
  client_batch_size = 10;
  cancelled = λ w. none;
  get_page = λ q w. (ok [], w);
  metadata = λ id w. (ok [], w);
  read_dataset_state = λ id w. ok none;
  has_socrata_id = λ s w. err tt;
  live_columns = λ s w. ok [];
  create_staging_table = λ ts w. (ok tt, w);
  insert_staging = λ ts page w. (ok tt, w);
  upsert_main = λ ts page w. (ok tt, w);
  swap = λ s t k w. (err tt, w);
  drop_staging_table = λ s w. suc w;
  upsert_dataset_state = λ st w. (ok tt, w);
  now = λ w. w;
  instant = λ t. t;
  parse_time = λ layout s. none;
  format_time = λ t. "";
  upper = λ s. s;
}

abbrev dogs : Target
dogs = record {
  id = "d";
  name = "Dogs";
  effective = record {
    dataset_id = "d";
    table = "d";
    where_clause = "";
    order_by = ":id";
    batch_size = pos 5000;
    limit = pos 0;
    skip_columns = [];
    mode = "";
    hwm_column = "";
    checkpoint_every_n_pages = pos 0;
  };
}

full_replace-LeavesClean_example :
    LeavesClean no_swap (staging_name no_swap "r1" 2 dogs) (full_replace no_swap "r1" 2 dogs 0)
full_replace-LeavesClean_example = full_replace-LeavesClean no_swap "r1" 2 dogs 0
