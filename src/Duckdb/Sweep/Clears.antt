-- ===== src/Duckdb/Sweep/Clears.antt =====
-- What a sweep clears, and what it leaves alone.
use civic_soda_quack.Prelude.{
  ℕ, zero, suc, ◌+◌, ◌≡◌, refl, ap, String, false, Option, none, some, List, [], ◌∷◌, map, length,
  get_elem?, arith, Bool-cases, inl, inr,
}
use civic_soda_quack.Duckdb.Runs.{SyncRun, unfinished, incomplete_sync_run_count}
use civic_soda_quack.Duckdb.Sweep.{
  SweepResult, SweepError, Base, drop_one, drop_all, abandoned, affected, resolve_unfinished,
  sweep_abandoned, staging_size,
}

module _ {T D : Type 0} where
  some_injective : {a b : SyncRun T D} → some a ≡ some b → a ≡ b
  some_injective h = cc

  abandoned_finished : (now : T) (r : SyncRun T D) → unfinished r ≡ false → abandoned now r ≡ r
  unfolding abandoned
  abandoned_finished now r h = rw h refl

  unfinished-abandoned : (now : T) (r : SyncRun T D) → unfinished (abandoned now r) ≡ false
  unfolding abandoned
  unfinished-abandoned now r = elim (Bool-cases (unfinished r)) [
    | inl y ↦ rw y refl
    | inr n ↦ rw n n
  ]

  incomplete-abandoned :
      (now : T) (rs : List (SyncRun T D)) → incomplete_sync_run_count (map (abandoned now) rs) ≡ 0
  unfolding incomplete_sync_run_count
  incomplete-abandoned now [] = refl
  incomplete-abandoned now (r ∷ rs) = rw (unfinished-abandoned now r) (incomplete-abandoned now rs)

  kept-map :
      (now : T) (rs : List (SyncRun T D)) (i : ℕ) (r : SyncRun T D)
      → get_elem? rs i ≡ some r
      → unfinished r ≡ false
      → get_elem? (map (abandoned now) rs) i ≡ some r
  kept-map now [] i r h f = h
  kept-map now (s ∷ rs) zero r h f =
      let same : s ≡ r = some_injective h in rw same (ap some (abandoned_finished now r f))
  kept-map now (s ∷ rs) (suc i) r h f = kept-map now rs i r h f

  length-abandoned :
      (now : T) (rs : List (SyncRun T D)) → length (map (abandoned now) rs) ≡ length rs
  length-abandoned now [] = refl
  length-abandoned now (r ∷ rs) = ap suc (length-abandoned now rs)

module _ {E : Type 0} where
  -- A drop that fails leaves its table and the rest, one that succeeds what the later ones leave.
  drop_one_counts :
      (t : String × Option ℕ) (ts : List (String × Option ℕ)) (n : ℕ) (o : Option E)
      (later : (ℕ × Option (SweepError E)) × List (String × Option ℕ))
      → later.0.0 + length later.1 ≡ suc n + length ts
      → (drop_one t ts n o later).0.0 + length (drop_one t ts n o later).1 ≡ n + suc (length ts)
  drop_one_counts t ts n (some e) later h = refl
  drop_one_counts t ts n none later h = omega (arith, h)

  drop_one_empties :
      (t : String × Option ℕ) (ts : List (String × Option ℕ)) (n : ℕ) (o : Option E)
      (later : (ℕ × Option (SweepError E)) × List (String × Option ℕ))
      → (later.0.1 ≡ none → later.1 ≡ [])
      → (drop_one t ts n o later).0.1 ≡ none
      → (drop_one t ts n o later).1 ≡ []
  drop_one_empties t ts n (some e) later h z = cc
  drop_one_empties t ts n none later h z = h z

  drop_all_counts :
      (fault : String → Option E) (ts : List (String × Option ℕ)) (n : ℕ)
      → (drop_all fault ts n).0.0 + length (drop_all fault ts n).1 ≡ n + length ts
  unfolding drop_all
  drop_all_counts fault [] n = refl
  drop_all_counts fault (t ∷ ts) n =
      drop_one_counts t ts n (fault t.0) (drop_all fault ts (suc n))
        (drop_all_counts fault ts (suc n))

  drop_all_empties :
      (fault : String → Option E) (ts : List (String × Option ℕ)) (n : ℕ)
      → (drop_all fault ts n).0.1 ≡ none
      → (drop_all fault ts n).1 ≡ []
  unfolding drop_all
  drop_all_empties fault [] n h = refl
  drop_all_empties fault (t ∷ ts) n h =
      drop_one_empties t ts n (fault t.0) (drop_all fault ts (suc n))
        (drop_all_empties fault ts (suc n)) h

module _ {E T D : Type 0} where
  pub record Swept (affected_fault : Option E) (base : Base T D)
      (out : (SweepResult × Option (SweepError E)) × Base T D) : Type 0 where
    -- A finished run is left as it is.
    pub kept :
        (i : ℕ) (r : SyncRun T D)
        → get_elem? base.runs i ≡ some r
        → unfinished r ≡ false
        → get_elem? out.1.runs i ≡ some r
    pub same_number : length out.1.runs ≡ length base.runs
    -- A table was dropped and counted, or is still there.
    pub tables : out.0.0.staging_tables + length out.1.staging ≡ length base.staging
    pub clear :
        out.0.1 ≡ none
        → (out.1.staging ≡ [])
          × (incomplete_sync_run_count out.1.runs ≡ 0)
          × (out.0.0.abandoned_runs ≡ affected affected_fault (incomplete_sync_run_count base.runs))

  every_drop :
      (update_fault affected_fault : Option E) (now : T) (base : Base T D)
      (out : (ℕ × Option (SweepError E)) × List (String × Option ℕ))
      → out.0.0 + length out.1 ≡ length base.staging
      → (out.0.1 ≡ none → out.1 ≡ [])
      → (size : ℕ)
      → Swept affected_fault base
          (resolve_unfinished update_fault affected_fault now size out base.runs)
  unfolding resolve_unfinished
  every_drop update_fault affected_fault now base ((n, some e), left) c z size = record {
    kept = λ i r h f. h;
    same_number = refl;
    tables = c;
    clear = λ h. cc;
  }
  every_drop (some e) affected_fault now base ((n, none), left) c z size = record {
    kept = λ i r h f. h;
    same_number = refl;
    tables = c;
    clear = λ h. cc;
  }
  every_drop none affected_fault now base ((n, none), left) c z size = record {
    kept = kept-map now base.runs;
    same_number = length-abandoned now base.runs;
    tables = c;
    clear = λ h. (z refl, incomplete-abandoned now base.runs, refl);
  }

  -- Whatever statements of a sweep fail, it leaves the finished runs and the number of rows as
  -- they are, and every staging table is either dropped and counted or still there; without an
  -- error no staging table and no unfinished run is left, and it reports as many abandoned runs as
  -- were unfinished, or none where the number of affected rows cannot be read.
  pub sweep_abandoned-Swept :
      (update_fault affected_fault list_fault : Option E) (drop_fault : String → Option E) (now : T)
      (base : Base T D)
      → Swept affected_fault base
          (sweep_abandoned update_fault affected_fault list_fault drop_fault now base)
  unfolding sweep_abandoned
  sweep_abandoned-Swept update_fault affected_fault (some e) drop_fault now base = record {
    kept = λ i r h f. h;
    same_number = refl;
    tables = omega arith;
    clear = λ h. cc;
  }
  sweep_abandoned-Swept update_fault affected_fault none drop_fault now base =
      every_drop update_fault affected_fault now base (drop_all drop_fault base.staging 0)
        (omega (arith, drop_all_counts drop_fault base.staging 0))
        (drop_all_empties drop_fault base.staging 0) (staging_size base.staging)
