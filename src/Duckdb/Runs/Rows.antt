-- ===== src/Duckdb/Runs/Rows.antt =====
-- What starting and finishing a run make of the table.
use civic_soda_quack.Prelude.{
  ℕ, ◌≡◌, ◌⊎◌, inl, inr, refl, ap, String, Bool, true, ◌&&◌, Option, none, some, List, [], ◌∷◌,
  ◌++◌, any, Result, ok, err, length, get_elem?, eq_refl, Bool-cases,
}
use civic_soda_quack.Duckdb.Runs.{
  SyncRun, RunsError, newest_row, update_row, same_key, select_rowid, start_sync_run, finished_run,
  finish_sync_run,
}

newest_row-append :
    {R : Type 0} (p : R → Bool) (rs : List R) (r : R)
    → p r ≡ true
    → newest_row p (rs ++ (r ∷ [])) ≡ some (length rs)
unfolding newest_row
newest_row-append p [] r h = rw h refl
newest_row-append p (s ∷ rs) r h = rw (newest_row-append p rs r h) refl

get_elem?-append :
    {R : Type 0} (rs : List R) (r : R) → get_elem? (rs ++ (r ∷ [])) (length rs) ≡ some r
get_elem?-append [] r = refl
get_elem?-append (s ∷ rs) r = get_elem?-append rs r

update_row-append :
    {R : Type 0} (f : R → R) (rs : List R) (r : R)
    → update_row f (length rs) (rs ++ (r ∷ [])) ≡ rs ++ (f r ∷ [])
unfolding update_row
update_row-append f [] r = refl
update_row-append f (s ∷ rs) r = ap (λ l. s ∷ l) (update_row-append f rs r)

module _ {T D : Type 0} where
  same_key_refl : (r : SyncRun T D) → same_key r r ≡ true
  same_key_refl r = rw (eq_refl r.run_id, eq_refl r.dataset_id) refl

module _ {E T D : Type 0} where
  -- A start is refused, or its row is at the end, and its rowid is known or not.
  abbrev pub Started :
      SyncRun T D → List (SyncRun T D) → Result (RunsError E) ℕ × List (SyncRun T D) → Type 0
  Started r rows (err e, rows') = (rows' ≡ rows) ⊎ (rows' ≡ rows ++ (r ∷ []))
  Started r rows (ok i, rows') = (i ≡ length rows) × (rows' ≡ rows ++ (r ∷ []))

  select_rowid-Started :
      (same_time : T → T → Bool) (insert_fault select_fault : Option E) (r : SyncRun T D)
      (rows : List (SyncRun T D))
      → same_time r.started_at r.started_at ≡ true
      → Started r rows (select_rowid same_time insert_fault select_fault r (rows ++ (r ∷ [])))
  unfolding select_rowid
  select_rowid-Started same_time insert_fault (some e) r rows h = inr refl
  select_rowid-Started same_time insert_fault none r rows h =
      rw
        (newest_row-append (λ s. same_key s r && same_time s.started_at r.started_at) rows r
          (rw (same_key_refl r) h))
        (refl, refl)

  pub start_sync_run-Started :
      (same_time : T → T → Bool) (insert_fault select_fault : Option E) (r : SyncRun T D)
      (rows : List (SyncRun T D))
      → same_time r.started_at r.started_at ≡ true
      → Started r rows (start_sync_run same_time insert_fault select_fault r rows)
  unfolding start_sync_run
  start_sync_run-Started same_time (some e) select_fault r rows h = inl refl
  start_sync_run-Started same_time none select_fault r rows h =
      elim (Bool-cases (any (same_key r) rows)) [
        | inl y ↦ rw y (inl refl)
        | inr n ↦ rw n (select_rowid-Started same_time none select_fault r rows h)
      ]

  -- A finish does nothing, or it fills the row in.
  abbrev pub Finished :
      SyncRun T D
      → SyncRun T D
      → List (SyncRun T D)
      → Result (RunsError E) (Unit {0}) × List (SyncRun T D)
      → Type 0
  Finished r r' rows (err e, rows') = rows' ≡ rows ++ (r ∷ [])
  Finished r r' rows (ok u, rows') = rows' ≡ rows ++ (r' ∷ [])

  pub finish_sync_run-Finished :
      (since : T → T → D) (select_fault update_fault : Option E) (status : String) (written : ℕ)
      (message : String) (now : T) (r : SyncRun T D) (rows : List (SyncRun T D))
      → Finished r (finished_run since status written message now r) rows (
          finish_sync_run since select_fault update_fault
            (length rows)
            status
            written
            message
            now
            (rows ++ (r ∷ [])))
  unfolding finish_sync_run
  finish_sync_run-Finished since (some e) update_fault status written message now r rows = refl
  finish_sync_run-Finished since none (some e) status written message now r rows =
      rw (get_elem?-append rows r) refl
  finish_sync_run-Finished since none none status written message now r rows =
      rw (get_elem?-append rows r)
        (update_row-append (finished_run since status written message now) rows r)
