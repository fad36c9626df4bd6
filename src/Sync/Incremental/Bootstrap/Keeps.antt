-- ===== src/Sync/Incremental/Bootstrap/Keeps.antt =====
-- When a sync may change the stored state of a dataset.
use civic_soda_quack.Prelude.{
  ℕ, ◌≡◌, refl, ap, ◌∙◌, ◌⊎◌, inl, inr, String, Option, none, some, List, Result, ok, err,
  Option-cases,
}
use civic_soda_quack.Socrata.{Row}
use civic_soda_quack.Socrata.Stream.{Query, Ending, finished, stopped, out_of_fuel}
use civic_soda_quack.Socrata.Stream.Invariant.{stream_rows_ctx_keeps}
use civic_soda_quack.Duckdb.Schema.{Column, TableSchema}
use civic_soda_quack.Sync.{Target}
use civic_soda_quack.Sync.Incremental.{
  DatasetState, done, Calls, Progress, Streaming, Written, page_beside, early_end,
}
use civic_soda_quack.Sync.Incremental.Bootstrap.{
  bootstrap_inserted, bootstrap_handler, bootstrap_saved, bootstrap_swapped, bootstrap_streamed,
  bootstrap_created, bootstrap_described, bootstrap,
}
use civic_soda_quack.Sync.Incremental.Stores.{Stores}

module _ {F T E W : Type 0} (calls : Calls F T E W) (stored : W → String → Option (DatasetState T))
    (stores : Stores calls stored) (run_id : String) (fuel : ℕ) (t : Target) where
  open t use {id, effective as eff}

  -- Without a result that is `ok`, the stored states are those of before.
  abbrev pub KeptUnlessDone : W → Written calls → Type 0
  KeptUnlessDone w (none, w') = stored w' ≡ stored w
  KeptUnlessDone w (some result, w') = (result.status ≡ done) ⊎ (stored w' ≡ stored w)

  pub early_end-Kept :
      (e : E) (w w' : W) → stored w' ≡ stored w → KeptUnlessDone w (early_end calls e w')
  unfolding early_end
  early_end-Kept e w w' h = elim (Option-cases (calls.cancelled w')) [
    | inl n ↦ rw (n, early_end) (inr h)
    | inr (c, s) ↦ rw (s, early_end) (inr h)
  ]

  bootstrap_saved-Kept :
      (rows : ℕ) (w : W) (p : Result E (Unit {0}) × W)
      → KeptUnlessDone w (bootstrap_saved calls run_id fuel t rows p)
  unfolding bootstrap_saved
  bootstrap_saved-Kept rows w (ok u, w') = inl refl
  bootstrap_saved-Kept rows w (err e, w') = inl refl

  bootstrap_swapped-Kept :
      (column : String) (pr : Progress T) (w : W) (p : Result E (Unit {0}) × W)
      → stored p.1 ≡ stored w
      → KeptUnlessDone w (bootstrap_swapped calls run_id fuel t column pr p)
  unfolding bootstrap_swapped
  bootstrap_swapped-Kept column pr w (ok u, w') h = bootstrap_saved-Kept pr.rows w _
  bootstrap_swapped-Kept column pr w (err e, w') h = inr (stores.at_drop _ w' ∙ h)

  bootstrap_streamed-Kept :
      (column : String) (schema : TableSchema) (w : W) (x : Ending E × Streaming calls)
      → stored x.1.0 ≡ stored w
      → KeptUnlessDone w (bootstrap_streamed calls run_id fuel t column schema x)
  unfolding bootstrap_streamed
  bootstrap_streamed-Kept column schema w (finished, (w', p)) h =
      bootstrap_swapped-Kept column p w _ (stores.at_swap _ _ _ w' ∙ h)
  bootstrap_streamed-Kept column schema w (stopped e, (w', p)) h =
      early_end-Kept e w _ (stores.at_drop _ w' ∙ h)
  bootstrap_streamed-Kept column schema w (out_of_fuel, (w', p)) h = h

  pub page_beside_kept :
      (v : String → Option (DatasetState T)) (q : Query) (s : Streaming calls)
      → stored s.0 ≡ v
      → stored (page_beside calls q s).1.0 ≡ v
  unfolding page_beside
  page_beside_kept v q (w, p) h = stores.at_page q w ∙ h

  bootstrap_inserted_kept :
      (column : String) (page : List (Row F)) (pr : Progress T) (p : Result E (Unit {0}) × W)
      → (bootstrap_inserted calls column page pr p).1.0 ≡ p.1
  unfolding bootstrap_inserted
  bootstrap_inserted_kept column page pr (ok u, w) = refl
  bootstrap_inserted_kept column page pr (err e, w) = refl

  bootstrap_handler_kept :
      (v : String → Option (DatasetState T)) (column : String) (schema : TableSchema)
      (page : List (Row F)) (s : Streaming calls)
      → stored s.0 ≡ v
      → stored (bootstrap_handler calls column schema page s).1.0 ≡ v
  unfolding bootstrap_handler
  bootstrap_handler_kept v column schema page (w, p) h =
      ap stored (bootstrap_inserted_kept column page p (calls.insert_staging schema page w))
      ∙ stores.at_insert schema page w
      ∙ h

  bootstrap_created-Kept :
      (column : String) (schema : TableSchema) (w : W) (p : Result E (Unit {0}) × W)
      → stored p.1 ≡ stored w
      → KeptUnlessDone w (bootstrap_created calls run_id fuel t column schema p)
  unfolding bootstrap_created
  bootstrap_created-Kept column schema w (err e, w') h = inr h
  bootstrap_created-Kept column schema w (ok u, w') h = bootstrap_streamed-Kept column schema w _ (
      stream_rows_ctx_keeps (λ s. calls.cancelled s.0) (page_beside calls)
        (bootstrap_handler calls column schema) _ (λ s. stored s.0 ≡ stored w)
        (page_beside_kept (stored w)) (bootstrap_handler_kept (stored w) column schema) fuel _ h)

  bootstrap_described-Kept :
      (w : W) (p : Result E (List Column) × W)
      → stored p.1 ≡ stored w
      → KeptUnlessDone w (bootstrap_described calls run_id fuel t p)
  unfolding bootstrap_described
  bootstrap_described-Kept w (err e, w') h = inr h
  bootstrap_described-Kept w (ok cols, w') h =
      bootstrap_created-Kept _ _ w _ (stores.at_create _ w' ∙ h)

  -- Where only the write of a dataset's state changes the stored states, a full load whose result
  -- is not the good one (failed, aborted or out of fuel) leaves every stored state as it was.
  pub bootstrap-KeptUnlessDone : (w : W) → KeptUnlessDone w (bootstrap calls run_id fuel t w)
  unfolding bootstrap
  bootstrap-KeptUnlessDone w = bootstrap_described-Kept w _ (stores.at_metadata _ w)
