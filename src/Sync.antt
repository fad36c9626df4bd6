-- ===== src/Sync.antt =====
-- The sync engine: internal/sync. The target of a sync, and what becomes of one dataset (types.go).
pub mod Selectors
pub mod Incremental
pub mod FullReplace
pub mod Plan
pub mod Workers
pub mod Run
use civic_soda_quack.Prelude.{ℕ, String, Option}
use civic_soda_quack.Config.{Effective}

-- `DatasetTarget`
pub record Target : Type 0 where
  pub id : String
  pub name : String
  pub effective : Effective
