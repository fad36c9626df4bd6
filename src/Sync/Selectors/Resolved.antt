-- ===== src/Sync/Selectors/Resolved.antt =====
-- What comes out of the selectors.
use civic_soda_quack.Prelude.{
  ◌≡◌, refl, sym, ap, ◌∙◌, subst, inl, inr, String, Bool, true, false, ◌&&◌, not, Option, List, [],
  ◌∷◌, map, any, all, Result, ok, err, ◌>>◌, ◌>>=◌, str_eq, eq_refl, arith, Bool-cases,
}
use civic_soda_quack.Config.{Config, effective_for}
use civic_soda_quack.Socrata.Catalog.{CatalogEntry}
use civic_soda_quack.Sync.{Target}
use civic_soda_quack.Sync.Selectors.{
  ResolveError, only_not_selected, nothing_matched, member, keep, match_selector, by_id,
  include_all, exclude_all, check_only, restrict_only, target_of, targets_of, resolve,
}
use civic_soda_quack.Sync.Selectors.Members.{member-keep, member-include_all, member-exclude_all}
use civic_soda_quack.Sync.Selectors.Distinct.{
  NoRepeats, keep-NoRepeats, include_all-NoRepeats, exclude_all-NoRepeats,
}

abbrev ids : List Target → List String
ids [] = []
ids (t ∷ ts) = t.id ∷ ids ts

module _ {T : Type 0} (glob : String → String → Option Bool) (cfg : Config)
    (catalog : List (CatalogEntry T)) where
  -- Some entry of that id is included, and the id's entry is not excluded.
  abbrev pub chosen : String → Bool
  chosen x =
      any (λ sel. any (λ e. match_selector glob sel e && str_eq x e.id) catalog) cfg.include
      && all (λ sel. not (match_selector glob sel (by_id catalog x))) cfg.exclude

  -- Every target has the name of its catalog entry and its effective configuration.
  abbrev pub Filled : List Target → Type 0
  Filled [] = Unit
  Filled (t ∷ ts) =
      ((t.name ≡ (by_id catalog t.id).name) × (t.effective ≡ effective_for cfg t.id)) × Filled ts

  abbrev pub in_only : List String → String → Bool
  in_only [] x = true
  in_only (id ∷ only) x = member x (id ∷ only)

  -- What each answer of the resolver means.
  abbrev pub Describes : List String → Result ResolveError (List Target) → Type 0
  Describes only (ok targets) =
      NoRepeats (ids targets)
      × Filled targets
      × ((x : String) → member x (ids targets) ≡ (chosen x && in_only only x))
  Describes only (err (only_not_selected id)) = (member id only ≡ true) × (chosen id ≡ false)
  Describes only (err nothing_matched) = (x : String) → (chosen x && in_only only x) ≡ false

  included : List String
  included = exclude_all glob catalog cfg.exclude (include_all glob catalog cfg.include [])

  member-included : (x : String) → member x included ≡ chosen x
  unfolding included
  member-included x =
      member-exclude_all glob x catalog cfg.exclude (include_all glob catalog cfg.include [])
      ∙ ap (λ b. b && all (λ sel. not (match_selector glob sel (by_id catalog x))) cfg.exclude)
          (member-include_all glob x catalog cfg.include [])

  included-NoRepeats : NoRepeats included
  unfolding included
  included-NoRepeats =
      exclude_all-NoRepeats glob catalog cfg.exclude _
        (include_all-NoRepeats glob catalog cfg.include [] tt)

  -- The rest of the resolver, over the restricted ids.
  abbrev pub Restricted : List String → Result ResolveError (List String) → Type 0
  Restricted only (ok set) =
      NoRepeats set × ((x : String) → member x set ≡ (chosen x && in_only only x))
  Restricted only (err (only_not_selected id)) = (member id only ≡ true) × (chosen id ≡ false)
  Restricted only (err nothing_matched) = ⊥

  -- A refusal names an id of the list that is not in the set.
  OnlyRefused : List String → List String → Result ResolveError (Unit {0}) → Type 0
  OnlyRefused set only (ok u) = Unit
  OnlyRefused set only (err (only_not_selected id)) =
      (member id only ≡ true) × (member id set ≡ false)
  OnlyRefused set only (err nothing_matched) = ⊥

  OnlyRefused-cons :
      (set only : List String) (y : String) (r : Result ResolveError (Unit {0}))
      → OnlyRefused set only r
      → OnlyRefused set (y ∷ only) r
  unfolding OnlyRefused
  OnlyRefused-cons set only y (ok u) h = tt
  OnlyRefused-cons set only y (err (only_not_selected id)) (m, n) = (ground arith, n)
  OnlyRefused-cons set only y (err nothing_matched) h = h

  check_only-OnlyRefused : (set only : List String) → OnlyRefused set only (check_only set only)
  unfolding OnlyRefused check_only
  check_only-OnlyRefused set [] = tt
  check_only-OnlyRefused set (id ∷ only) = elim (Bool-cases (member id set)) [
    | inl y ↦
        rw y (OnlyRefused-cons set only id (check_only set only) (check_only-OnlyRefused set only))
    | inr z ↦ rw z (rw (eq_refl id) refl, z)
  ]

  kept-Restricted :
      (id : String) (only : List String) (r : Result ResolveError (Unit {0}))
      → OnlyRefused included (id ∷ only) r
      → Restricted (id ∷ only) (r >> ok (keep (λ x. member x (id ∷ only)) included))
  unfolding OnlyRefused
  kept-Restricted id only (ok u) h = (
    keep-NoRepeats _ included included-NoRepeats,
    λ x. member-keep _ x included ∙ ap (λ b. b && member x (id ∷ only)) (member-included x),
  )
  kept-Restricted id only (err (only_not_selected x)) (m, n) = (m, sym (member-included x) ∙ n)
  kept-Restricted id only (err nothing_matched) h = h

  restrict_only-Restricted : (only : List String) → Restricted only (restrict_only only included)
  unfolding restrict_only
  restrict_only-Restricted [] =
      (included-NoRepeats, λ x. member-included x ∙ sym (and_true (chosen x)))
    where
      and_true : (b : Bool) → (b && true) ≡ b
      and_true b = ground arith
  restrict_only-Restricted (id ∷ only) =
      kept-Restricted id only (check_only included (id ∷ only))
        (check_only-OnlyRefused included (id ∷ only))

  ids-map : (xs : List String) → ids (map (target_of cfg catalog) xs) ≡ xs
  unfolding target_of
  ids-map [] = refl
  ids-map (x ∷ xs) = ap (λ l. x ∷ l) (ids-map xs)

  map-Filled : (xs : List String) → Filled (map (target_of cfg catalog) xs)
  unfolding target_of
  map-Filled [] = tt
  map-Filled (x ∷ xs) = ((refl, refl), map-Filled xs)

  targets-Describes :
      (only : List String) (r : Result ResolveError (List String))
      → Restricted only r
      → Describes only (r >>= targets_of cfg catalog)
  unfolding targets_of
  targets-Describes only (ok []) (n, h) = λ x. sym (h x)
  targets-Describes only (ok (x ∷ xs)) (n, h) =
      let same = ids-map (x ∷ xs) in
      (subst NoRepeats (sym same) n, map-Filled (x ∷ xs), λ y. ap (member y) same ∙ h y)
  targets-Describes only (err (only_not_selected id)) h = h
  targets-Describes only (err nothing_matched) h = absurd h

  -- The resolver answers with targets whose ids do not repeat and are exactly those with a catalog
  -- entry that an include selector matches, whose own entry no exclude selector matches, and that
  -- the list of wanted ids names if it names any, each with its entry's name and its effective
  -- configuration; or with an error that names a wanted id which is not chosen; or with the error
  -- that no id is left, where none is.
  pub resolve-Describes : (only : List String) → Describes only (resolve glob cfg catalog only)
  unfolding resolve included
  resolve-Describes only =
      targets-Describes only (restrict_only only included) (restrict_only-Restricted only)
