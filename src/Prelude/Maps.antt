-- ===== src/Prelude/Maps.antt =====
-- A Go map with text keys, as an association list. Its keys come in an unspecified order, for which
-- the order of insertion stands.
use Prim.Native.String.{String}
use mathlib.Core.Path.{◌≡◌, refl, subst, ◌∙◌}
use mathlib.Core.Bool.{false}
use mathlib.Core.List.{List, [], ◌∷◌}
use mathlib.Core.Option.{Option, none, some}
use mathlib.Core.Logic.{inl, inr}
use native.Mathlib.Omega.{arith}
use text.Mathlib.Text.{◌==◌ as str_eq}
use text.Mathlib.TextEquality.{eq_iff}
use civic_soda_quack.Prelude.Tests.{if◌then◌else◌, Bool-cases}

module _ {ℓ} {V : Type ℓ} where
  -- `v, ok := m[k]`
  unfoldable pub get : String → List (String × V) → Option V
  get k [] = none
  get k ((j, v) ∷ rest) = if str_eq j k then some v else get k rest

  -- `m[k] = v`
  unfoldable pub put : String → V → List (String × V) → List (String × V)
  put k v [] = (k, v) ∷ []
  put k v ((j, w) ∷ rest) = if str_eq j k then (k, v) ∷ rest else (j, w) ∷ put k v rest

  -- No key stands twice.
  abbrev pub DistinctKeys : List (String × V) → Type ℓ
  DistinctKeys [] = Unit
  DistinctKeys ((k, v) ∷ rest) = (get k rest ≡ none) × DistinctKeys rest

  pub get-cons :
      (k j : String) (v : V) (m : List (String × V))
      → get k ((j, v) ∷ m) ≡ (if str_eq j k then some v else get k m)
  unfolding get
  get-cons k j v m = refl

  pub get-put :
      (k j : String) (v : V) (m : List (String × V))
      → get j (put k v m) ≡ (if str_eq k j then some v else get j m)
  unfolding get put
  get-put k j v [] = refl
  get-put k j v ((i, w) ∷ m) = ground (arith, eq_iff k j, eq_iff i k, eq_iff i j, get-put k j v m)

  pub get-nil : (k : String) → get k [] ≡ none
  unfolding get
  get-nil k = refl

  pub put-DistinctKeys :
      (k : String) (v : V) (m : List (String × V)) → DistinctKeys m → DistinctKeys (put k v m)
  unfolding put
  put-DistinctKeys k v [] h = (get-nil k, tt)
  put-DistinctKeys k v ((j, w) ∷ m) (fresh, h) = elim (Bool-cases (str_eq j k)) [
    | inl y ↦ rw y (subst (λ x. get x m ≡ none) ((eq_iff j k).0 y) fresh, h)
    | inr z ↦ rw z (get-put k j v m ∙ (rw (other z) fresh), put-DistinctKeys k v m h)
  ]
    where
      other : str_eq j k ≡ false → str_eq k j ≡ false
      other z = ground (arith, eq_iff j k, eq_iff k j)
