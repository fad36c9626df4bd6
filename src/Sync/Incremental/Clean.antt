-- ===== src/Sync/Incremental/Clean.antt =====
-- That a load which does not end well drops its staging table.
use civic_soda_quack.Prelude.{◌≡◌, refl, ◌⊎◌, inl, inr, String, Option, none, some, Option-cases}
use civic_soda_quack.Sync.Incremental.{
  SyncError, fetch_metadata, create_staging, done, Calls, Written, early_end,
}

-- The load failed before there was a staging table.
abbrev pub BeforeStaging : {E : Type 0} → Option (SyncError E) → Type 0
BeforeStaging (some (fetch_metadata e)) = Unit
BeforeStaging (some (create_staging e)) = Unit
BeforeStaging _ = ⊥

module _ {F T E W : Type 0} (calls : Calls F T E W) (staged : String) where
  -- A result is the good one, or there was no staging table yet, or dropping it was the last thing
  -- done.
  abbrev pub LeavesClean : Written calls → Type 0
  LeavesClean (none, w') = Unit
  LeavesClean (some result, w') =
      (result.status ≡ done)
      ⊎ (BeforeStaging result.error ⊎ ((w : W) × (w' ≡ calls.drop_staging_table staged w)))

  pub early_end-LeavesClean :
      (e : E) (w : W) → LeavesClean (early_end calls e (calls.drop_staging_table staged w))
  unfolding early_end
  early_end-LeavesClean e w =
      elim (Option-cases (calls.cancelled (calls.drop_staging_table staged w))) [
        | inl n ↦ rw (n, early_end) (inr (inr (w, refl)))
        | inr (c, s) ↦ rw (s, early_end) (inr (inr (w, refl)))
      ]
