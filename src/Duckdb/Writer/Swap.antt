-- ===== src/Duckdb/Writer/Swap.antt =====
-- The swap of a staging table into place.
use mathlib.Core.Path.{fun_ext}
use civic_soda_quack.Prelude.{
  ◌≡◌, refl, ap, subst, ◌∙◌, ◌⊎◌, inl, inr, String, none, Result, ok, err, str_eq, Bool-cases,
}
use civic_soda_quack.Duckdb.Values.{Coder}
use civic_soda_quack.Duckdb.Engine.{
  Schema, main, staging, Statement, drop_table_if_exists, drop_table, create_from_staging,
  add_primary_key, Engine, View, set_table, after, Transactional,
}
use civic_soda_quack.Duckdb.Writer.{
  WriteError, drop_failed, copy_failed, drop_staging_failed, key_failed, commit_failed, Answer,
  wrapped, close, in_transaction, and_then, run, tx_then, tx_run, swap_statements, install_key,
  swap_in,
}

module _ {F T : Type 0} (coder : Coder F T) (e : Engine F T) (l : Transactional e) where
  -- The staged rows stand under the target's name, the staging table is gone, and every other table
  -- is as it was.
  abbrev pub swapped : String → String → View F T → View F T
  swapped staged target v =
      set_table (set_table v main target (v staging staged)) staging staged none

  abbrev pub Swaps : String → String → e.Db → Answer coder e × e.Db → Type 0
  Swaps staged target d (ok u, d') = l.view d' ≡ swapped staged target (l.view d)
  Swaps staged target d (err x, d') =
      (d' ≡ d)
      ⊎ ((y : e.Error) × (x ≡ key_failed y) × (l.view d' ≡ swapped staged target (l.view d)))

  -- One statement of a transaction.
  Steps : (View F T → View F T) → e.Tx → Answer coder e × e.Tx → Type 0
  Steps f t (ok u, t') = (l.tx_view t' ≡ f (l.tx_view t)) × (l.origin t' ≡ l.origin t)
  Steps f t (err x, t') = l.origin t' ≡ l.origin t

  tx_run-Steps :
      (f : e.Error → WriteError e.Error) (st : Statement F T) (t : e.Tx)
      → Steps (after l.merge st) t (tx_run coder e f st t)
  unfolding tx_run wrapped Steps
  tx_run-Steps f st t = go (e.tx_exec st t) (l.tx_exec_ok st t) (l.tx_exec_origin st t)
    where
      go :
          (p : Result e.Error (Unit {0}) × e.Tx)
          → (p.0 ≡ ok tt → l.tx_view p.1 ≡ after l.merge st (l.tx_view t))
          → l.origin p.1 ≡ l.origin t
          → Steps (after l.merge st) t (wrapped coder e f p.0, p.1)
      go (ok u, t') seen same = (seen refl, same)
      go (err x, t') seen same = same

  tx_then-Steps :
      (f g : View F T → View F T) (t : e.Tx) (r : Answer coder e × e.Tx)
      (k : e.Tx → Answer coder e × e.Tx)
      → Steps f t r
      → ((t1 : e.Tx) → Steps g t1 (k t1))
      → Steps (λ v. g (f v)) t (tx_then coder e r k)
  unfolding tx_then Steps
  tx_then-Steps f g t (err x, t1) k same rest = same
  tx_then-Steps f g t (ok u, t1) k (seen, same) rest = go (k t1) (rest t1)
    where
      go : (r : Answer coder e × e.Tx) → Steps g t1 r → Steps (λ v. g (f v)) t r
      go (ok u', t2) (seen2, same2) = (seen2 ∙ ap g seen, same2 ∙ same)
      go (err x, t2) same2 = same2 ∙ same

  swap_statements-Steps :
      (staged target : String) (t : e.Tx)
      → Steps
          (λ v. after l.merge (drop_table staging staged) (
            after l.merge
              (create_from_staging target staged)
              (after l.merge (drop_table_if_exists main target) v)))
          t
          (swap_statements coder e staged target t)
  unfolding swap_statements
  swap_statements-Steps staged target t =
      tx_then-Steps _ _ t _ _ (tx_run-Steps drop_failed (drop_table_if_exists main target) t) (λ t1.
        tx_then-Steps _ _ t1 _ _ (tx_run-Steps copy_failed (create_from_staging target staged) t1)
          (tx_run-Steps drop_staging_failed (drop_table staging staged)))

  -- Dropping the old table first makes no difference to the view.
  swapped_lem :
      (staged target : String) (v : View F T)
      → after l.merge (drop_table staging staged) (
          after l.merge
            (create_from_staging target staged)
            (after l.merge (drop_table_if_exists main target) v))
        ≡ swapped staged target v
  swapped_lem staged target v = fun_ext λ s. fun_ext λ n. at s n
    where
      at :
          (s : Schema) (n : String)
          → set_table
              (set_table (set_table v main target none) main target (v staging staged))
              staging
              staged
              none
              s
              n
            ≡ swapped staged target v s n
      at main n = elim (Bool-cases (str_eq target n)) [ inl y ↦ rw y refl | inr z ↦ rw z refl ]
      at staging n = refl

  -- The transaction of the swap.
  Copied : String → String → e.Db → Answer coder e × e.Db → Type 0
  Copied staged target d (ok u, d') = l.view d' ≡ swapped staged target (l.view d)
  Copied staged target d (err x, d') = d' ≡ d

  close-Copied :
      (staged target : String) (d : e.Db) (t : e.Tx) (r : Answer coder e × e.Tx)
      → l.origin t ≡ d
      → l.tx_view t ≡ l.view d
      → Steps (swapped staged target) t r
      → Copied staged target d (close coder e commit_failed r)
  unfolding close Steps wrapped Copied
  close-Copied staged target d t (err x, t') from seen same = l.rollback_origin t' ∙ same ∙ from
  close-Copied staged target d t (ok u, t') from seen (view, same) =
      committed (e.commit t') (l.commit_ok t') (l.commit_err t')
    where
      committed :
          (p : Result e.Error (Unit {0}) × e.Db)
          → (p.0 ≡ ok tt → l.view p.1 ≡ l.tx_view t')
          → ((x : e.Error) → p.0 ≡ err x → p.1 ≡ l.origin t')
          → Copied staged target d (wrapped coder e commit_failed p.0, p.1)
      committed (ok u', d') good bad = good refl ∙ view ∙ ap (swapped staged target) seen
      committed (err x, d') good bad = bad x refl ∙ same ∙ from

  begun-Copied :
      (staged target : String) (d : e.Db) (b : Result e.Error e.Tx)
      → e.begin d ≡ b
      → Copied staged target d (in_transaction coder e (swap_statements coder e staged target) d b)
  unfolding in_transaction Copied
  begun-Copied staged target d (err x) begun = refl
  begun-Copied staged target d (ok t) begun =
      let (from, seen) = l.begin_ok d t begun in
      unfold Copied in
      (close-Copied staged target d t (swap_statements coder e staged target t) from seen (
        subst (λ f. Steps f t (swap_statements coder e staged target t))
          (fun_ext (swapped_lem staged target)) (swap_statements-Steps staged target t)))

  install-Swaps :
      (staged target key : String) (d : e.Db) (r : Answer coder e × e.Db)
      → Copied staged target d r
      → Swaps staged target d (and_then coder e r (install_key coder e target key))
  unfolding and_then Copied install_key wrapped run
  install-Swaps staged target key d (err x, d1) same = inl same
  install-Swaps staged target key d (ok u, d1) view = elim (Bool-cases (str_eq key "")) [
    | inl y ↦ rw y view
    | inr z ↦
        rw z (keyed (e.exec (add_primary_key target key) d1) (l.exec_ok _ d1) (l.exec_err _ d1))
  ]
    where
      keyed :
          (p : Result e.Error (Unit {0}) × e.Db)
          → (p.0 ≡ ok tt → l.view p.1 ≡ l.view d1)
          → ((x : e.Error) → p.0 ≡ err x → p.1 ≡ d1)
          → Swaps staged target d (wrapped coder e key_failed p.0, p.1)
      keyed (ok u', d') good bad = good refl ∙ view
      keyed (err x, d') good bad = inr (x, refl, ap l.view (bad x refl) ∙ view)

  -- Over a database with transactions, a swap that reports no error leaves the staged rows under
  -- the target's name, removes the staging table and leaves every other table alone; a swap that
  -- reports an error either leaves the database as it was, or is done in full and only the primary
  -- key could not be installed.
  pub swap_in-Swaps :
      (staged target key : String) (d : e.Db)
      → Swaps staged target d (swap_in coder e staged target key d)
  unfolding swap_in
  swap_in-Swaps staged target key d =
      install-Swaps staged target key d
        (in_transaction coder e (swap_statements coder e staged target) d (e.begin d))
        (begun-Copied staged target d (e.begin d) refl)
