-- ===== src/Config/Load/Loaded.antt =====
-- What `Load` answers.
use civic_soda_quack.Prelude.{
  ◌≡◌, ◌↔◌, refl, sym, ap, subst, String, Bool, true, false, ◌&&◌, not, Result, ok, err, ◌>>=◌,
  ◌>>◌, str_eq, eq_iff, arith,
}
use civic_soda_quack.Config.{Config}
use civic_soda_quack.Config.Load.{
  ConfigError, app_token_empty, guard, apply_defaults, validate, load,
}
use civic_soda_quack.Config.Load.Valid.{
  IsEmpty, IsValid, IsFilled, validate_iff, apply_defaults_fills,
}

bind_iff :
    (m : Result ConfigError (Unit {0})) (k : Result ConfigError Config) (c : Config)
    → ((m >>= λ _. k) ≡ ok c) ↔ ((m ≡ ok tt) × (k ≡ ok c))
bind_iff (ok u) k c = (λ h. (refl, h), λ p. p.1)
bind_iff (err e) k c = (λ h. cc, λ p. cc p.0)

token_iff :
    (env : Bool) (token : String)
    → (guard (not (env && str_eq token "")) app_token_empty ≡ ok tt)
      ↔ (env ≡ true → ¬ IsEmpty token)
unfolding guard
token_iff true token = ground (arith, eq_iff token "")
token_iff false token = (λ h e. cc, λ h. refl)

same_token : (c : Config) → (apply_defaults c).app_token ≡ c.app_token
unfolding apply_defaults
same_token c = refl

-- A decoded configuration is loaded exactly if it is valid after the defaults and a token written
-- as a reference to the environment is not empty; the loaded one is then the decoded one with its
-- defaults, filled and valid.
pub load_iff :
    (had_env_ref : Bool) (decoded c : Config)
    → (load had_env_ref decoded ≡ ok c) ↔ (
        (c ≡ apply_defaults decoded)
        × ((had_env_ref ≡ true) → ¬ IsEmpty decoded.app_token)
        × IsValid c
        × IsFilled c)
unfolding load
load_iff env decoded c =
    let d = apply_defaults decoded in
    let (to_token, of_token) = token_iff env d.app_token in
    let (to_valid, of_valid) = validate_iff d in
    let outer =
      bind_iff (guard (not (env && str_eq d.app_token "")) app_token_empty) (validate d >> ok d)
        c in
    let inner = bind_iff (validate d) (ok d) c in
    (
      λ h.
          let (t, h1) = outer.0 h in
          let (v, h2) = inner.0 h1 in
          let same : d ≡ c = cc h2 in
          (
            sym same,
            rw (← same_token decoded) (to_token t),
            subst IsValid same (to_valid v),
            subst IsFilled same (apply_defaults_fills decoded).0,
          ),
      λ p.
          let same : d ≡ c = sym p.0 in
          outer.1 (
            of_token (rw (same_token decoded) p.1),
            inner.1 (of_valid (subst IsValid p.0 p.2), ap ok same),
          ),
    )
