-- ===== src/Sync/Plan.antt =====
-- Which targets a run loads in full: the part of `Run` of internal/sync/run.go between the resolver
-- and the dry run. `all` is FullRefreshAll and the ids are FullRefreshIDs.
pub mod Forces
use civic_soda_quack.Prelude.{
  String, Bool, true, false, ◌||◌, List, [], ◌∷◌, map, Result, ok, err, ◌>>◌, if◌then◌else◌,
}
use civic_soda_quack.Sync.{Target}
use civic_soda_quack.Sync.Selectors.{member}

pub data PlanError : Type 0 where
  exclusive : PlanError
  not_resolved : String → PlanError

-- `targets[i].Effective.Mode = "full_replace"`
pub forced : Target → Target
forced t = record t { effective = record t.effective { mode = "full_replace" } }

-- The keys of `resolved`.
pub target_ids : List Target → List String
target_ids [] = []
target_ids (t ∷ ts) = t.id ∷ target_ids ts

-- The first id that is not resolved is an error.
check_refresh : List String → List String → Result PlanError (Unit {0})
check_refresh resolved [] = ok tt
check_refresh resolved (id ∷ ids) =
    let rest = check_refresh resolved ids in
    if member id resolved then rest else err (not_resolved id)

pub force_in : List String → List Target → List Target
force_in ids [] = []
force_in ids (t ∷ ts) = (if member t.id ids then forced t else t) ∷ force_in ids ts

force_all : List Target → List Target
force_all [] = []
force_all (t ∷ ts) = forced t ∷ force_all ts

pub plan : Bool → List String → List Target → Result PlanError (List Target)
plan true [] ts = ok (force_all ts)
plan false [] ts = ok ts
plan true (id ∷ ids) ts = err exclusive
plan false (id ∷ ids) ts = check_refresh (target_ids ts) (id ∷ ids) >> ok (force_in (id ∷ ids) ts)
