-- ===== src/Sync/Run/DryRun.antt =====
-- What a dry run changes.
use civic_soda_quack.Prelude.{
  String, ◌≡◌, refl, ◌⊎◌, inl, inr, Bool, true, false, ◌||◌, Option, List, ◌∷◌, Result, ok, err,
  Bool-cases,
}
use civic_soda_quack.Config.{Config}
use civic_soda_quack.Socrata.Catalog.{CatalogEntry}
use civic_soda_quack.Sync.Run.{
  Services, Flags, Prepared, catalog_fetched, upserted, catalog_cached, targeted, is_nil,
  prepare_targets,
}

module _ {E T W : Type 0} (services : Services E T W) (flags : Flags) where
  -- The worlds that a dry run may leave: its own, or that behind the fetched catalog, and behind storing it.
  abbrev pub Leaves : W → W → Type 0
  Leaves w w' =
      (w' ≡ w)
      ⊎ ((w' ≡ (services.fetch_catalog w).1)
          ⊎ ((c : List (CatalogEntry T)) × (w'
                ≡ (services.upsert_catalog c (services.fetch_catalog w).1).1)))

  targeted_world :
      (glob : String → String → Option Bool) (cfg : Config)
      (p : Prepared services flags (List (CatalogEntry T)))
      → (targeted services flags glob cfg p).1 ≡ p.1
  targeted_world glob cfg (err e, w) = refl
  targeted_world glob cfg (ok c, w) = refl

  upserted_world :
      (c : List (CatalogEntry T)) (p : Result E (Unit {0}) × W)
      → (upserted services flags c p).1 ≡ p.1
  upserted_world c (err e, w) = refl
  upserted_world c (ok u, w) = refl

  catalog_fetched-Leaves :
      {w : W} (p : Result E (List (CatalogEntry T)) × W)
      → ((catalog_fetched services flags p).1 ≡ w)
        ⊎ (((catalog_fetched services flags p).1 ≡ p.1)
            ⊎ ((c : List (CatalogEntry T)) × ((catalog_fetched services flags p).1
                  ≡ (services.upsert_catalog c p.1).1)))
  catalog_fetched-Leaves (err e, w) = inr (inl refl)
  catalog_fetched-Leaves (ok c, w) = inr (inr (c, upserted_world c (services.upsert_catalog c w)))

  catalog_cached-Leaves :
      (w : W) (r : Result E (List (CatalogEntry T)))
      → Leaves w (catalog_cached services flags r w).1
  catalog_cached-Leaves w (err e) = inl refl
  catalog_cached-Leaves w (ok c) = elim (Bool-cases (flags.refresh_catalog || is_nil c)) [
    | inl y ↦ rw y (catalog_fetched-Leaves (services.fetch_catalog w))
    | inr n ↦ rw n (inl refl)
  ]

  -- A dry run never sweeps, whatever becomes of its steps: it leaves the world as it was, or as
  -- fetching the catalog left it, or as storing a catalog behind that left it.
  pub prepare_targets-Leaves :
      (glob : String → String → Option Bool) (cfg : Config) (w : W)
      → flags.dry_run ≡ true
      → Leaves w (prepare_targets services flags glob cfg w).1
  unfolding prepare_targets
  prepare_targets-Leaves glob cfg w dry =
      rw (dry, targeted_world glob cfg (catalog_cached services flags (services.read_catalog w) w))
        (catalog_cached-Leaves w (services.read_catalog w))

  -- With a catalog stored, and no refresh of it, a dry run changes nothing.
  pub prepare_cached :
      (glob : String → String → Option Bool) (cfg : Config) (w : W) (e : CatalogEntry T)
      (es : List (CatalogEntry T))
      → flags.dry_run ≡ true
      → flags.refresh_catalog ≡ false
      → services.read_catalog w ≡ ok (e ∷ es)
      → (prepare_targets services flags glob cfg w).1 ≡ w
  unfolding prepare_targets
  prepare_cached glob cfg w e es dry fresh stored = rw (dry, stored, fresh) refl
