-- ===== src/Sync/Run/Examples.antt =====
-- A dataset whose row cannot be filled in, and a dry run over an empty catalog.
use civic_soda_quack.Prelude.{ℕ, ◌+◌, ◌≡◌, ◌⊎◌, refl, true, false, none, some, [], ◌∷◌, ok}
use civic_soda_quack.Prelude.Int.{pos}
use civic_soda_quack.Config.Load.Examples.{written}
use civic_soda_quack.Sync.{Target}
use civic_soda_quack.Sync.Incremental.{done, DatasetResult}
use civic_soda_quack.Sync.Run.{Faults, Texts, Services, Flags, run_one, prepare_targets}
use civic_soda_quack.Sync.Run.Books.{NotRun, Ran, run_one-Books}

abbrev parks : Target
parks = record {
  id = "a";
  name = "Parks";
  effective = record {
    dataset_id = "a";
    table = "parks";
    where_clause = "";
    order_by = ":id";
    batch_size = pos 5000;
    limit = pos 0;
    skip_columns = [];
    mode = "";
    hwm_column = "";
    checkpoint_every_n_pages = pos 0;
  };
}

abbrev texts : Texts ℕ ℕ ℕ
texts = record {
  same_time = λ a b. true;
  since = λ a b. 5;
  config_hash = λ t. "h";
  error_text = λ o. "";
}

-- The last statement fails.
abbrev faults : Faults ℕ
faults = record { insert = none; rowid = none; started = none; finish = some 7 }

abbrev loads : ℕ → DatasetResult ℕ × ℕ
loads x = (record { status = done; rows_written = 3; error = none }, 1)

run_one-Books_example :
    NotRun texts faults "r1" parks 10 ([], 0) (run_one texts faults "r1" parks loads 10 15 ([], 0))
    ⊎ Ran texts faults "r1" parks loads 10 15
        ([], 0)
        (run_one texts faults "r1" parks loads 10 15 ([], 0))
run_one-Books_example = run_one-Books texts faults "r1" parks loads 10 15 [] 0 refl

-- A world is the number of times that the catalog was stored.
abbrev services : Services ℕ ℕ ℕ
services = record {
  sweep = λ w. (ok tt, 100);
  read_catalog = λ w. ok [];
  fetch_catalog = λ w. (
    ok (
        record {
          id = "a";
          name = "Parks";
          description = "";
          category = "Parks";
          tags = [];
          updated_at = none;
        }
        ∷ []),
    w,
  );
  upsert_catalog = λ c w. (ok tt, w + 1);
}

abbrev flags : Flags
flags = record {
  only = [];
  dry_run = true;
  refresh_catalog = false;
  full_refresh_all = false;
  full_refresh_ids = [];
}

-- The dry run stores the catalog.
stores : (prepare_targets services flags (λ p s. none) written 0).1 ≡ 1
unfolding prepare_targets
stores = refl
