-- ===== src/Config/Load.antt =====
-- Defaults and validation: `applyDefaults`, `validate`, `Selector.validate` and the checks of `Load`.
pub mod Examples
pub mod Valid
pub mod Loaded
use Prim.Native.String
use civic_soda_quack.Prelude.{
  ℕ, zero, suc, ◌+◌, String, Bool, true, false, ◌&&◌, not, List, [], ◌∷◌, Result, ok, err, ◌>>=◌,
  ◌>>◌, ◌==◌, str_eq, if◌then◌else◌,
}
use civic_soda_quack.Prelude.Int.{ℤ, pos, eqb_ℤ, ltb_ℤ}
use civic_soda_quack.Config.{Selector, Defaults, Config}

pub data ConfigError : Type 0 where
  portal_required on_error_unknown concurrency_too_small include_empty app_token_empty : ConfigError
  include_selector exclude_selector : ℕ → ConfigError  -- the selector's position

-- `if v == 0 { v = d }`
int_default : ℤ → ℤ → ℤ
int_default v d = if eqb_ℤ v (pos 0) then d else v

-- `if v == "" { v = d }`
text_default : String → String → String
text_default v d = if str_eq v "" then d else v

db_default : String → String → String
db_default db portal =
    if str_eq db "" && not (str_eq portal "") then String.◌++◌ portal ".duckdb" else db

pub apply_defaults : Config → Config
unfolding int_default text_default db_default
apply_defaults c = record c {
  concurrency = int_default c.concurrency (pos 4);
  on_error = text_default c.on_error "continue";
  db = db_default c.db c.portal;
  defaults = record {
    batch_size = int_default c.defaults.batch_size (pos 5000);
    order_by = text_default c.defaults.order_by ":id";
  };
}

abbrev pub one_if_set : String → ℕ
one_if_set s = if str_eq s "" then 0 else 1

-- How many fields are set.
pub fields_set : Selector → ℕ
fields_set s = one_if_set s.id + one_if_set s.name + one_if_set s.category + one_if_set s.tag

-- `Selector.validate` on each of a list, from position `i`.
pub validate_selectors : (ℕ → ConfigError) → ℕ → List Selector → Result ConfigError (Unit {0})
validate_selectors at i [] = ok tt
validate_selectors at i (s ∷ rest) =
    let later = validate_selectors at (suc i) rest in
    if fields_set s == 1 then later else err (at i)

guard : Bool → ConfigError → Result ConfigError (Unit {0})
guard true e = ok tt
guard false e = err e

is_nonempty {ℓ} : {A : Type ℓ} → List A → Bool
is_nonempty [] = false
is_nonempty (x ∷ xs) = true

known_on_error : String → Bool
known_on_error s = if str_eq s "continue" then true else str_eq s "abort"

pub validate : Config → Result ConfigError (Unit {0})
unfolding guard is_nonempty known_on_error
validate c = do
  guard (not (str_eq c.portal "")) portal_required
  guard (known_on_error c.on_error) on_error_unknown
  guard (not (ltb_ℤ c.concurrency (pos 1))) concurrency_too_small
  guard (is_nonempty c.include) include_empty
  validate_selectors include_selector 0 c.include
  validate_selectors exclude_selector 0 c.exclude

-- `Load` behind the YAML decoder: `had_env_ref` tells that the token was written as `${ENV}`.
pub load : Bool → Config → Result ConfigError Config
load had_env_ref decoded = do
  let c = apply_defaults decoded
  guard (not (had_env_ref && str_eq c.app_token "")) app_token_empty
  validate c
  ok c
