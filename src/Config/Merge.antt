-- ===== src/Config/Merge.antt =====
-- What an effective configuration satisfies.
use Prim.Native.String
use Prim.Native.String.append
use civic_soda_quack.Config.Load.{apply_defaults}
use civic_soda_quack.Config.Load.Valid.{apply_defaults_fills}
use civic_soda_quack.Prelude.{◌≡◌, ◌≢◌, ap, ◌↔◌, String, Option, none, some, eq_iff, arith}
use civic_soda_quack.Prelude.Int.{pos}
use civic_soda_quack.Prelude.Maps.{get}
use civic_soda_quack.Config.{
  Config, Effective, Override, Canonical, base_for, overridden, effective_for, canonical, hash,
}

-- What every sync relies on: rows are ordered and pages are not empty.
pub record IsRunnable (e : Effective) : Type 0 where
  pub ordered : e.order_by ≢ ""
  pub paged : e.batch_size ≢ pos 0

overridden-IsRunnable :
    (e : Effective) (o : Option Override) → IsRunnable e → IsRunnable (overridden e o)
unfolding overridden
overridden-IsRunnable e none h = h
overridden-IsRunnable e (some ov) h = record {
  ordered = λ p. h.ordered (ground (arith, eq_iff ov.order_by "", p));
  paged = λ p. h.paged (ground (arith, p));
}

-- With the defaults applied, every dataset's effective configuration has an order and a page size
-- that is not 0, whatever its override says.
pub effective_for-IsRunnable :
    (c : Config) (id : String) → IsRunnable (effective_for (apply_defaults c) id)
unfolding effective_for base_for
effective_for-IsRunnable c id =
    let filled = (apply_defaults_fills c).0 in
    overridden-IsRunnable (base_for (apply_defaults c) id) (get id (apply_defaults c).overrides)
      (record { ordered = filled.order_by_set; paged = filled.batch_size_set })

append_cancel : (s t u : String) → String.◌++◌ s t ≡ String.◌++◌ s u → t ≡ u
append_cancel String.[] t u e = cc (append.nil t, append.nil u)
append_cancel (String.◌∷◌ c s) t u e =
    append_cancel s t u (cc (append.cons c s t, append.cons c s u))

canonical_injective :
    (a b : Effective) → a.dataset_id ≡ b.dataset_id → canonical a ≡ canonical b → a ≡ b
unfolding canonical
canonical_injective a b p q = λ i. record {
  dataset_id = p i;
  table = (q i).table;
  where_clause = (q i).where_clause;
  order_by = (q i).order_by;
  batch_size = (q i).batch_size;
  limit = (q i).limit;
  skip_columns = (q i).skip_columns;
  mode = (q i).mode;
  hwm_column = (q i).hwm_column;
  checkpoint_every_n_pages = (q i).checkpoint_every_n_pages;
}

-- For two effective configurations of one dataset whose digests differ if their digested structs
-- do, the hashes are equal exactly if the configurations are.
hash_tells :
    (digest : Canonical → String) (a b : Effective)
    → (digest (canonical a) ≡ digest (canonical b) → canonical a ≡ canonical b)
    → a.dataset_id ≡ b.dataset_id
    → (hash digest a ≡ hash digest b) ↔ (a ≡ b)
unfolding hash
hash_tells digest a b apart same = (
  λ h. canonical_injective a b same (apart (append_cancel "sha256:" _ _ h)),
  λ e. ap (hash digest) e,
)
