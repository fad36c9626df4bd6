-- ===== src/Confidence/Signals.antt =====
-- The checks of internal/confidence/signals.go, without their sentences. `T` is a time, and the days
-- between two times are a parameter, below 0 where the second is later. The usable rows of a profile are
-- some of its rows.
use civic_soda_quack.Prelude.{
  ℕ, ◌-◌, String, Bool, true, false, ◌&&◌, ◌||◌, not, Option, none, some, [], ◌∷◌, ◌++◌, ltb, leb,
  ◌==◌, str_eq, if◌then◌else◌,
}
use civic_soda_quack.Prelude.Int.{ℤ, pos_part}
use civic_soda_quack.Confidence.{
  Level, pass, warn, fail, unknown, Kind, scored, diagnostic, Floats, Signal, Report, is_pass,
  level_for, clamp, sort_signals,
}

abbrev pub or_catalog : ℕ → Option ℕ → ℕ
or_catalog expected none = expected
or_catalog expected (some rows) = if expected == 0 then rows else expected

-- `bookRecord`, what the checks read of it.
pub record BookRecord (T : Type 0) : Type 0 where
  pub found : Bool
  pub last_status : String
  pub last_started : Option T
  pub last_finished : Option T
  pub ok_at : Option T
  pub upstream_updated : Option T

abbrev pub is_set : {A : Type 0} → Option A → Bool
is_set none = false
is_set (some a) = true

module _ {F : Type 0} (fl : Floats F) where
  -- A check that was measured as a share: nothing counts as lost where it passes or the share is above 1.
  pub measured_share : String → String → F → ℕ → ℕ → Signal F
  unfolding clamp level_for
  measured_share name dataset share lost of = record {
    name = name;
    level = level_for fl (clamp fl share);
    kind = scored;
    score = clamp fl share;
    lost = if fl.less fl.one share || is_pass (level_for fl (clamp fl share)) then 0 else lost;
    of = of;
    dataset = dataset;
  }

  abbrev pub fixed : String → Kind → String → Level → ℕ → ℕ → Signal F
  fixed name kind dataset level lost of = record {
    name = name;
    level = level;
    kind = kind;
    score = fl.nought;
    lost = lost;
    of = of;
    dataset = dataset;
  }

  pub completeness_of : ℕ → ℕ → String → Signal F
  unfolding measured_share
  completeness_of held expected dataset =
      if expected == 0
      then fixed "completeness" scored dataset unknown 0 expected
      else if held == 0
      then fixed "completeness" scored dataset fail expected expected
      else measured_share "completeness" dataset (fl.ratio held expected) (expected - held) expected

  -- `completenessSignal`
  pub completeness_signal : ℕ → ℕ → Option ℕ → String → Signal F
  unfolding completeness_of
  completeness_signal held expected catalog dataset =
      completeness_of held (or_catalog expected catalog) dataset

  -- `usabilitySignal`, of the rows, the usable ones and the number of columns of a profile.
  pub usability_signal : ℕ → ℕ → ℕ → String → Signal F
  unfolding clamp level_for
  usability_signal rows usable columns dataset =
      if rows == 0
      then fixed "usability" scored dataset fail 0 rows
      else if columns == 0
      then fixed "usability" scored dataset unknown 0 rows
      else record {
        name = "usability";
        level = level_for fl (clamp fl (fl.ratio usable rows));
        kind = scored;
        score = clamp fl (fl.ratio usable rows);
        lost = rows - usable;
        of = rows;
        dataset = dataset;
      }

  abbrev pub diagnosed : String → String → Level → Signal F
  diagnosed name dataset level = fixed name diagnostic dataset level 0 0

  module _ {T : Type 0} where
    -- `syncSignal`
    pub sync_level : BookRecord T → Level
    sync_level b =
        if not b.found || (not (is_set b.last_started) && not (is_set b.ok_at))
        then fail
        else if str_eq b.last_status "running"
            || (is_set b.last_started && not (is_set b.last_finished))
        then fail
        else if not (str_eq b.last_status "ok")
        then fail
        else pass

    pub sync_signal : BookRecord T → String → Signal F
    unfolding sync_level
    sync_signal b dataset = diagnosed "sync" dataset (sync_level b)

    -- `freshnessSignal`; `days_between now t` is `int(now.Sub(t).Hours() / 24)`.
    abbrev pub freshness_level : (T → T → ℤ) → T → Option T → Level
    freshness_level days_between now none = unknown
    freshness_level days_between now (some t) =
        if leb (pos_part (days_between now t)) 90 then pass else warn

    pub freshness_signal : (T → T → ℤ) → BookRecord T → String → T → Signal F
    freshness_signal days_between b dataset now =
        diagnosed "freshness" dataset (freshness_level days_between now b.upstream_updated)

    -- `lagSignal`; `later` is time.After.
    abbrev pub lag_level : (T → T → Bool) → Option T → Option T → Level
    lag_level later none ok_at = unknown
    lag_level later (some t) none = unknown
    lag_level later (some t) (some synced) = if later t synced then warn else pass

    pub lag_signal : (T → T → Bool) → BookRecord T → String → Signal F
    lag_signal later b dataset =
        diagnosed "local_lag" dataset (lag_level later b.upstream_updated b.ok_at)

  -- `Concentration`; `threshold` is 0.4.
  pub concentration : F → F → ℕ → Report F → Report F
  unfolding sort_signals
  concentration threshold top_share rows_shown r =
      if fl.less top_share threshold || ltb rows_shown 2 then r else record r {
        signals = sort_signals (r.signals ++ (fixed "concentration" diagnostic "" warn 0 0 ∷ []));
      }
