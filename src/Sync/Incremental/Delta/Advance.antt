-- ===== src/Sync/Incremental/Delta/Advance.antt =====
-- When a delta writes, and that its stored mark never goes back.
use civic_soda_quack.Prelude.{
  ℕ, ◌≡◌, refl, sym, subst, inl, inr, String, Bool, true, false, Option, none, some, List, [], ◌∷◌,
  Result, ok, err, str_eq, if◌then◌else◌, Bool-cases, Option-cases,
}
use civic_soda_quack.Prelude.Int.{pos_part}
use civic_soda_quack.Socrata.{Row}
use civic_soda_quack.Socrata.Stream.{Query, Ending, finished, stopped, out_of_fuel}
use civic_soda_quack.Socrata.Stream.Invariant.{stream_rows_ctx_keeps}
use civic_soda_quack.Duckdb.Schema.{Column, TableSchema, build_schema_with_socrata_id}
use civic_soda_quack.Duckdb.Diff.{SchemaDiff}
use civic_soda_quack.Sync.{Target}
use civic_soda_quack.Sync.Incremental.{
  DatasetState, Calls, Progress, Streaming, Written, page_beside, early_end, filter_columns,
  hwm_column_or_default, checkpoint_due, counted, newest,
}
use civic_soda_quack.Sync.Incremental.Delta.{
  marked, delta_upserted, delta_handler, delta_saved, delta_streamed, delta_compared, delta_listed,
  delta_described, delta,
}
use civic_soda_quack.Sync.Incremental.Marks.{
  NotBefore, NotBefore-refl, NotBefore-trans, newest-Covers,
}
use civic_soda_quack.Sync.Incremental.Stores.{Stores}

module _ {F T E W : Type 0} (calls : Calls F T E W) (stored : W → String → Option (DatasetState T))
    (stores : Stores calls stored) (run_id : String) (fuel : ℕ) (t : Target)
    (state : DatasetState T) where
  open t use {id, effective as eff}

  -- `r` is a state whose mark is no earlier than the one that the delta began with.
  abbrev pub Ahead : Option (DatasetState T) → Type 0
  Ahead none = ⊥
  Ahead (some s) = NotBefore calls state.hwm_updated_at s.hwm_updated_at

  -- The stored state and the running mark are both no earlier than the mark at the start.
  BothAhead : Streaming calls → Type 0
  BothAhead (w, p) = Ahead (stored w id) × NotBefore calls state.hwm_updated_at p.max_hwm

  Ahead-if :
      (b : Bool) (x y : Option (DatasetState T)) → Ahead x → Ahead y → Ahead (if b then x else y)
  Ahead-if true x y h k = h
  Ahead-if false x y h k = k

  -- Writing a state ahead keeps the stored one ahead, whether it is written or not.
  upsert-Ahead :
      (st : DatasetState T) (w : W)
      → NotBefore calls state.hwm_updated_at st.hwm_updated_at
      → Ahead (stored w id)
      → Ahead (stored (calls.upsert_dataset_state st w).1 id)
  upsert-Ahead st w ahead h =
      go (calls.upsert_dataset_state st w) (stores.at_state_ok st w id) (stores.at_state_err st w)
    where
      go :
          (p : Result E (Unit {0}) × W)
          → (p.0 ≡ ok tt
              → stored p.1 id ≡ (if str_eq st.dataset_id id then some st else stored w id))
          → ((x : E) → p.0 ≡ err x → stored p.1 ≡ stored w)
          → Ahead (stored p.1 id)
      go (ok u, w') good bad =
          subst Ahead (sym (good refl))
            (Ahead-if (str_eq st.dataset_id id) (some st) (stored w id) ahead h)
      go (err x, w') good bad = subst (λ v. Ahead (v id)) (sym (bad x refl)) h

  delta_upserted-BothAhead :
      (column : String) (page : List (Row F)) (pr : Progress T) (p : Result E (Unit {0}) × W)
      → Ahead (stored p.1 id)
      → NotBefore calls state.hwm_updated_at pr.max_hwm
      → BothAhead (delta_upserted calls run_id fuel t state column page pr p).1
  unfolding delta_upserted counted marked BothAhead
  delta_upserted-BothAhead column page pr (err e, w) h k = (h, k)
  delta_upserted-BothAhead column page pr (ok u, w) h k =
      let later =
        NotBefore-trans calls state.hwm_updated_at pr.max_hwm (newest calls column pr.max_hwm page)
          k (newest-Covers calls column pr.max_hwm page).0 in
      elim (Bool-cases (
        checkpoint_due (pos_part eff.checkpoint_every_n_pages)
          (counted calls column page pr).pages)) [
            | inl y ↦ rw y (
              upsert-Ahead
                  (marked calls run_id fuel t state column (newest calls column pr.max_hwm page)) w
                  later h,
              later,
            )
            | inr z ↦ rw z (h, later)
          ]

  delta_handler-BothAhead :
      (column : String) (schema : TableSchema) (page : List (Row F)) (s : Streaming calls)
      → BothAhead s
      → BothAhead (delta_handler calls run_id fuel t state column schema page s).1
  unfolding delta_handler BothAhead
  delta_handler-BothAhead column schema page (w, p) (h, k) =
      unfold BothAhead in
      delta_upserted-BothAhead column page p (calls.upsert_main schema page w)
        (subst (λ v. Ahead (v id)) (sym (stores.at_upsert schema page w)) h) k

  page_beside-BothAhead :
      (q : Query) (s : Streaming calls) → BothAhead s → BothAhead (page_beside calls q s).1
  unfolding page_beside BothAhead
  page_beside-BothAhead q (w, p) (h, k) =
      (subst (λ v. Ahead (v id)) (sym (stores.at_page q w)) h, k)

  -- The stored state is ahead in the world that a sync leaves.
  LeavesAhead : Written calls → Type 0
  LeavesAhead x = Ahead (stored x.1 id)

  delta_saved-Ahead :
      (rows : ℕ) (p : Result E (Unit {0}) × W)
      → Ahead (stored p.1 id)
      → LeavesAhead (delta_saved calls run_id fuel t state rows p)
  unfolding delta_saved LeavesAhead
  delta_saved-Ahead rows (ok u, w) h = h
  delta_saved-Ahead rows (err e, w) h = h

  early_end-Ahead : (e : E) (w : W) → Ahead (stored w id) → LeavesAhead (early_end calls e w)
  unfolding early_end LeavesAhead
  early_end-Ahead e w h = elim (Option-cases (calls.cancelled w)) [
    | inl n ↦ rw (n, early_end) h
    | inr (c, s) ↦ rw (s, early_end) h
  ]

  delta_streamed-Ahead :
      (x : Ending E × Streaming calls)
      → BothAhead x.1
      → LeavesAhead (delta_streamed calls run_id fuel t state x)
  unfolding delta_streamed BothAhead
  delta_streamed-Ahead (finished, (w, p)) (h, k) =
      delta_saved-Ahead p.rows _
        (upsert-Ahead (record state { hwm_updated_at = p.max_hwm; last_run_id = run_id }) w k h)
  delta_streamed-Ahead (stopped e, (w, p)) (h, k) = early_end-Ahead e w h
  delta_streamed-Ahead (out_of_fuel, (w, p)) (h, k) = unfold LeavesAhead in h

  delta_compared-Ahead :
      (column : String) (schema : TableSchema) (diffs : List SchemaDiff) (w : W)
      → Ahead (stored w id)
      → LeavesAhead (delta_compared calls run_id fuel t state column schema diffs w)
  unfolding delta_compared BothAhead
  delta_compared-Ahead column schema (d ∷ ds) w h = unfold LeavesAhead in h
  delta_compared-Ahead column schema [] w h = delta_streamed-Ahead _ (
      stream_rows_ctx_keeps (λ s. calls.cancelled s.0) (page_beside calls)
        (delta_handler calls run_id fuel t state column schema) _ BothAhead page_beside-BothAhead
        (delta_handler-BothAhead column schema) fuel _
        (h, NotBefore-refl calls state.hwm_updated_at))

  delta_described-Ahead :
      (p : Result E (List Column) × W)
      → Ahead (stored p.1 id)
      → LeavesAhead (delta_described calls run_id fuel t state p)
  unfolding delta_described delta_listed
  delta_described-Ahead (err e, w) h = unfold LeavesAhead in h
  delta_described-Ahead (ok cols, w) h = listed (calls.live_columns eff.table w)
    where
      listed :
          (r : Result E (List (String × String)))
          → LeavesAhead (
              delta_listed calls run_id fuel t state
                (hwm_column_or_default state.hwm_column)
                (build_schema_with_socrata_id eff.table (filter_columns cols eff.skip_columns))
                r
                w)
      listed (err e) = unfold LeavesAhead in h
      listed (ok live) = delta_compared-Ahead _ _ _ w h

  -- Where only the write of a dataset's state changes the stored states, a delta that starts from
  -- the stored state leaves a stored state for its dataset, whose mark is set if it was set before
  -- and is not earlier than before, however the delta ends and at whatever page a checkpoint was
  -- written.
  pub delta-Ahead :
      (w : W) → stored w id ≡ some state → Ahead (stored (delta calls run_id fuel t state w).1 id)
  unfolding delta LeavesAhead
  delta-Ahead w begun = delta_described-Ahead (calls.metadata id w) (
      subst (λ v. Ahead (v id)) (sym (stores.at_metadata id w))
        (subst Ahead (sym begun) (NotBefore-refl calls state.hwm_updated_at)))
