-- ===== src/Sync/Incremental/Delta/Keeps.antt =====
-- A delta without checkpoints.
use civic_soda_quack.Prelude.{
  ℕ, ◌≡◌, refl, ap, ◌∙◌, inl, inr, String, false, Option, List, [], ◌∷◌, Result, ok, err,
}
use civic_soda_quack.Prelude.Int.{pos_part}
use civic_soda_quack.Socrata.{Row}
use civic_soda_quack.Socrata.Stream.{Ending, finished, stopped, out_of_fuel}
use civic_soda_quack.Socrata.Stream.Invariant.{stream_rows_ctx_keeps}
use civic_soda_quack.Duckdb.Schema.{Column, TableSchema, build_schema_with_socrata_id}
use civic_soda_quack.Duckdb.Diff.{SchemaDiff}
use civic_soda_quack.Sync.{Target}
use civic_soda_quack.Sync.Incremental.{
  DatasetState, Calls, Progress, Streaming, Written, page_beside, checkpoint_due, counted,
  filter_columns, hwm_column_or_default,
}
use civic_soda_quack.Sync.Incremental.Stores.{Stores}
use civic_soda_quack.Sync.Incremental.Bootstrap.Keeps.{
  KeptUnlessDone, early_end-Kept, page_beside_kept,
}
use civic_soda_quack.Sync.Incremental.Delta.{
  delta_upserted, delta_handler, delta_saved, delta_streamed, delta_compared, delta_listed,
  delta_described, delta,
}

module _ {F T E W : Type 0} (calls : Calls F T E W) (stored : W → String → Option (DatasetState T))
    (stores : Stores calls stored) (run_id : String) (fuel : ℕ) (t : Target)
    (state : DatasetState T)
    (no_checkpoints : pos_part t.effective.checkpoint_every_n_pages ≡ 0) where
  open t use {id, effective as eff}

  never_due : (pages : ℕ) → checkpoint_due (pos_part eff.checkpoint_every_n_pages) pages ≡ false
  unfolding checkpoint_due
  never_due pages = rw no_checkpoints refl

  delta_upserted_kept :
      (column : String) (page : List (Row F)) (pr : Progress T) (p : Result E (Unit {0}) × W)
      → (delta_upserted calls run_id fuel t state column page pr p).1.0 ≡ p.1
  unfolding delta_upserted
  delta_upserted_kept column page pr (err e, w) = refl
  delta_upserted_kept column page pr (ok u, w) =
      rw (never_due (counted calls column page pr).pages) refl

  delta_handler_kept :
      (v : String → Option (DatasetState T)) (column : String) (schema : TableSchema)
      (page : List (Row F)) (s : Streaming calls)
      → stored s.0 ≡ v
      → stored (delta_handler calls run_id fuel t state column schema page s).1.0 ≡ v
  unfolding delta_handler
  delta_handler_kept v column schema page (w, p) h =
      ap stored (delta_upserted_kept column page p (calls.upsert_main schema page w))
      ∙ stores.at_upsert schema page w
      ∙ h

  abbrev Kept : W → Written calls → Type 0
  Kept = KeptUnlessDone calls stored stores run_id fuel t

  delta_saved-Kept :
      (rows : ℕ) (w : W) (p : Result E (Unit {0}) × W)
      → Kept w (delta_saved calls run_id fuel t state rows p)
  unfolding delta_saved
  delta_saved-Kept rows w (ok u, w') = inl refl
  delta_saved-Kept rows w (err e, w') = inl refl

  delta_streamed-Kept :
      (w : W) (x : Ending E × Streaming calls)
      → stored x.1.0 ≡ stored w
      → Kept w (delta_streamed calls run_id fuel t state x)
  unfolding delta_streamed
  delta_streamed-Kept w (finished, (w', p)) h = delta_saved-Kept p.rows w _
  delta_streamed-Kept w (stopped e, (w', p)) h =
      early_end-Kept calls stored stores run_id fuel t e w w' h
  delta_streamed-Kept w (out_of_fuel, (w', p)) h = h

  delta_compared-Kept :
      (column : String) (schema : TableSchema) (diffs : List SchemaDiff) (w w' : W)
      → stored w' ≡ stored w
      → Kept w (delta_compared calls run_id fuel t state column schema diffs w')
  unfolding delta_compared
  delta_compared-Kept column schema (d ∷ ds) w w' h = inr h
  delta_compared-Kept column schema [] w w' h = delta_streamed-Kept w _ (
      stream_rows_ctx_keeps (λ s. calls.cancelled s.0) (page_beside calls)
        (delta_handler calls run_id fuel t state column schema) _ (λ s. stored s.0 ≡ stored w)
        (page_beside_kept calls stored stores run_id fuel t (stored w))
        (delta_handler_kept (stored w) column schema) fuel _ h)

  delta_described-Kept :
      (w : W) (p : Result E (List Column) × W)
      → stored p.1 ≡ stored w
      → Kept w (delta_described calls run_id fuel t state p)
  unfolding delta_described delta_listed
  delta_described-Kept w (err e, w') h = inr h
  delta_described-Kept w (ok cols, w') h = listed (calls.live_columns eff.table w')
    where
      listed :
          (r : Result E (List (String × String)))
          → Kept w (
              delta_listed calls run_id fuel t state
                (hwm_column_or_default state.hwm_column)
                (build_schema_with_socrata_id eff.table (filter_columns cols eff.skip_columns))
                r
                w')
      listed (err e) = inr h
      listed (ok live) = delta_compared-Kept _ _ _ w w' h

  -- Where only the write of a dataset's state changes the stored states, and no checkpoints are
  -- configured, a delta whose result is not the good one (failed, aborted or out of fuel) leaves
  -- every stored state as it was.
  pub delta-KeptUnlessDone :
      (w : W)
      → KeptUnlessDone calls stored stores run_id fuel t w (delta calls run_id fuel t state w)
  unfolding delta
  delta-KeptUnlessDone w = delta_described-Kept w _ (stores.at_metadata _ w)
