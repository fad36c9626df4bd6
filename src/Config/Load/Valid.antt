-- ===== src/Config/Load/Valid.antt =====
-- What a loaded configuration satisfies.
use Prim.Native.String
use Prim.Native.String.append
use civic_soda_quack.Prelude.{
  ℕ, suc, ◌≡◌, ◌≢◌, ◌↔◌, ◌⊎◌, inl, inr, refl, String, Bool, true, false, List, [], ◌∷◌, Result, ok,
  err, ◌>>◌, not, ◌&&◌, str_eq, eq_iff, arith, ◌==◌, ==_iff, Bool-cases, if◌then◌else◌,
}
use civic_soda_quack.Prelude.Int.{ℤ, pos, ◌≤ℤ◌, ltb_ℤ, eqb_ℤ}
use civic_soda_quack.Config.{Selector, Config}
use civic_soda_quack.Config.Load.{
  ConfigError, guard, is_nonempty, known_on_error, portal_required, on_error_unknown,
  concurrency_too_small, include_empty, include_selector, exclude_selector, apply_defaults,
  fields_set, validate_selectors, validate, int_default, text_default, db_default,
}

abbrev pub IsEmpty : String → Type 0
IsEmpty s = s ≡ ""

-- Exactly one of the four fields is set.
abbrev pub ExactlyOne : Selector → Type 0
ExactlyOne s =
    ((¬ IsEmpty s.id) × IsEmpty s.name × IsEmpty s.category × IsEmpty s.tag)
    ⊎ ((IsEmpty s.id × (¬ IsEmpty s.name) × IsEmpty s.category × IsEmpty s.tag)
        ⊎ ((IsEmpty s.id × IsEmpty s.name × (¬ IsEmpty s.category) × IsEmpty s.tag)
            ⊎ (IsEmpty s.id × IsEmpty s.name × IsEmpty s.category × (¬ IsEmpty s.tag))))

abbrev pub AllExactlyOne : List Selector → Type 0
AllExactlyOne [] = Unit
AllExactlyOne (s ∷ rest) = ExactlyOne s × AllExactlyOne rest

-- A configuration that the sync can run on.
pub record IsValid (c : Config) : Type 0 where
  pub portal_set : ¬ IsEmpty c.portal
  pub on_error_known : (c.on_error ≡ "continue") ⊎ (c.on_error ≡ "abort")
  pub concurrent : pos 1 ≤ℤ c.concurrency
  pub includes : c.include ≢ []
  pub included_once : AllExactlyOne c.include
  pub excluded_once : AllExactlyOne c.exclude

fields_set_iff : (s : Selector) → (fields_set s ≡ 1) ↔ ExactlyOne s
unfolding fields_set
fields_set_iff s =
    ground (arith, eq_iff s.id "", eq_iff s.name "", eq_iff s.category "", eq_iff s.tag "")

validate_selectors_iff :
    (at : ℕ → ConfigError) (i : ℕ) (xs : List Selector)
    → (validate_selectors at i xs ≡ ok tt) ↔ AllExactlyOne xs
unfolding validate_selectors
validate_selectors_iff at i [] = (λ h. tt, λ h. refl)
validate_selectors_iff at i (s ∷ xs) =
    let one = fields_set_iff s in
    let rest = validate_selectors_iff at (suc i) xs in
    elim (Bool-cases (fields_set s == 1)) [
      | inl y ↦ rw y (λ h. (one.0 ((==_iff _ 1).0 y), rest.0 h), λ p. rest.1 p.1)
      | inr z ↦ rw z (λ h. cc, λ p. cc ((==_iff (fields_set s) 1).1 (one.1 p.0)))
    ]

then_iff : (m k : Result ConfigError (Unit {0})) → ((m >> k) ≡ ok tt) ↔ ((m ≡ ok tt) × (k ≡ ok tt))
then_iff (ok u) k = (λ h. (refl, h), λ p. p.1)
then_iff (err e) k = (λ h. cc, λ p. cc p.0)

portal_iff :
    (c : Config) → (guard (not (str_eq c.portal "")) portal_required ≡ ok tt) ↔ (¬ IsEmpty c.portal)
unfolding guard
portal_iff c = ground (arith, eq_iff c.portal "")

on_error_iff :
    (c : Config)
    → (guard (known_on_error c.on_error) on_error_unknown ≡ ok tt)
      ↔ ((c.on_error ≡ "continue") ⊎ (c.on_error ≡ "abort"))
unfolding guard known_on_error
on_error_iff c = ground (arith, eq_iff c.on_error "continue", eq_iff c.on_error "abort")

concurrency_iff :
    (c : Config)
    → (guard (not (ltb_ℤ c.concurrency (pos 1))) concurrency_too_small ≡ ok tt)
      ↔ (pos 1 ≤ℤ c.concurrency)
unfolding guard
concurrency_iff c = ground arith

include_iff : (xs : List Selector) → (guard (is_nonempty xs) include_empty ≡ ok tt) ↔ (xs ≢ [])
unfolding guard is_nonempty
include_iff [] = (λ h. cc, λ n. absurd (n refl))
include_iff (x ∷ xs) = (λ h. λ e. cc, λ n. refl)

-- Validation accepts exactly the configurations with a portal, a known answer to errors, at least
-- one worker, at least one include selector, and selectors that each set exactly one field.
pub validate_iff : (c : Config) → (validate c ≡ ok tt) ↔ IsValid c
unfolding validate
validate_iff c =
    let p1 = then_iff (guard (not (str_eq c.portal "")) portal_required) _ in
    let p2 = then_iff (guard (known_on_error c.on_error) on_error_unknown) _ in
    let p3 = then_iff (guard (not (ltb_ℤ c.concurrency (pos 1))) concurrency_too_small) _ in
    let p4 = then_iff (guard (is_nonempty c.include) include_empty) _ in
    let p5 = then_iff (validate_selectors include_selector 0 c.include) _ in
    (
      λ h.
          let (a, h1) = p1.0 h in
          let (b, h2) = p2.0 h1 in
          let (d, h3) = p3.0 h2 in
          let (e, h4) = p4.0 h3 in
          let (f, g) = p5.0 h4 in
          record {
            portal_set = (portal_iff c).0 a;
            on_error_known = (on_error_iff c).0 b;
            concurrent = (concurrency_iff c).0 d;
            includes = (include_iff c.include).0 e;
            included_once = (validate_selectors_iff include_selector 0 c.include).0 f;
            excluded_once = (validate_selectors_iff exclude_selector 0 c.exclude).0 g;
          },
      λ v. p1.1 (
        (portal_iff c).1 v.portal_set,
        p2.1 (
          (on_error_iff c).1 v.on_error_known,
          p3.1 (
            (concurrency_iff c).1 v.concurrent,
            p4.1 (
              (include_iff c.include).1 v.includes,
              p5.1 (
                (validate_selectors_iff include_selector 0 c.include).1 v.included_once,
                (validate_selectors_iff exclude_selector 0 c.exclude).1 v.excluded_once,
              ),
            ),
          ),
        ),
      ),
    )

-- Every field that has a default is set, the file of the database where there is a portal.
pub record IsFilled (c : Config) : Type 0 where
  pub concurrency_set : c.concurrency ≢ pos 0
  pub on_error_set : ¬ IsEmpty c.on_error
  pub db_set : (¬ IsEmpty c.portal) → ¬ IsEmpty c.db
  pub batch_size_set : c.defaults.batch_size ≢ pos 0
  pub order_by_set : ¬ IsEmpty c.defaults.order_by

if_same {ℓ} : {A : Type ℓ} (b : Bool) (x : A) → (if b then x else x) ≡ x
if_same true x = refl
if_same false x = refl

int_default_set : (v d : ℤ) → d ≢ pos 0 → int_default v d ≢ pos 0
unfolding int_default
int_default_set v d h e = ground arith

text_default_set : (v d : String) → (¬ IsEmpty d) → ¬ IsEmpty (text_default v d)
unfolding text_default
text_default_set v d h e = ground (arith, eq_iff v "")

append_set : (s t : String) → (¬ IsEmpty s) → ¬ IsEmpty (String.◌++◌ s t)
append_set String.[] t h e = h refl
append_set (String.◌∷◌ c s) t h e = cc (append.cons c s t)

db_default_set : (db portal : String) → (¬ IsEmpty portal) → ¬ IsEmpty (db_default db portal)
unfolding db_default
db_default_set db portal h e =
    ground (arith, eq_iff db "", eq_iff portal "", append_set portal ".duckdb" h)

int_default_twice : (v d : ℤ) → int_default (int_default v d) d ≡ int_default v d
unfolding int_default
int_default_twice v d = elim (Bool-cases (eqb_ℤ v (pos 0))) [
  | inl y ↦ rw y (if_same (eqb_ℤ d (pos 0)) d)
  | inr z ↦ rw (z, z)
]

text_default_twice : (v d : String) → text_default (text_default v d) d ≡ text_default v d
unfolding text_default
text_default_twice v d = elim (Bool-cases (str_eq v "")) [
  | inl y ↦ rw y (if_same (str_eq d "") d)
  | inr z ↦ rw (z, z)
]

db_default_twice :
    (db portal : String) → db_default (db_default db portal) portal ≡ db_default db portal
unfolding db_default
db_default_twice db portal = elim (Bool-cases (str_eq db "" && not (str_eq portal ""))) [
  | inl y ↦ rw y (if_same _ _)
  | inr z ↦ rw (z, z)
]

-- After the defaults every field that has one is set, the database's file where there is a portal,
-- and applying the defaults again changes nothing.
pub apply_defaults_fills :
    (c : Config)
    → IsFilled (apply_defaults c) × (apply_defaults (apply_defaults c) ≡ apply_defaults c)
unfolding apply_defaults
apply_defaults_fills c = (
  record {
    concurrency_set = int_default_set c.concurrency (pos 4) (λ e. cc);
    on_error_set = text_default_set c.on_error "continue" (λ e. cc);
    db_set = db_default_set c.db c.portal;
    batch_size_set = int_default_set c.defaults.batch_size (pos 5000) (λ e. cc);
    order_by_set = text_default_set c.defaults.order_by ":id" (λ e. cc);
  },
  λ i. record c {
    concurrency = int_default_twice c.concurrency (pos 4) i;
    on_error = text_default_twice c.on_error "continue" i;
    db = db_default_twice c.db c.portal i;
    defaults = record {
      batch_size = int_default_twice c.defaults.batch_size (pos 5000) i;
      order_by = text_default_twice c.defaults.order_by ":id" i;
    };
  },
)
