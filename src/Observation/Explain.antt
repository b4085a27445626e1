-- ===== src/Observation/Explain.antt =====
-- src/cachau/decorator.py: `explain`.
use cachau.Backend.{CacheEntry, is_expired}
use cachau.Control.{Env, write_errors}
use cachau.Dependencies.Changes.{changed_labels, or_empty}
use cachau.Dependencies.{same_fingerprints}
use cachau.Explanation.{
  Explanation, HitOrMiss, hit, miss, Reason, found, not_found, expired, invalidated,
  dependency_changed, evicted,
}
use cachau.Prelude.Dict.{Dict, lookup}
use cachau.Prelude.Exec.{Result, ok, pure, gets, ◌>>=◌}
use cachau.Prelude.{
  ℕ, zero, suc, String, List, [], ◌∷◌, Bool, not, Option, none, some, contains, if◌then◌else◌,
}
use cachau.Wrapper.{M, faulted, clamp_clock, build_key, current_dependencies, is_declared}

-- `dependency_diff`: the stored and the current fingerprint of every changed label.
unfoldable pub diff_of :
    Dict String → Dict String → List String → List (String × Option String × Option String)
diff_of stored current [] = []
diff_of stored current (label ∷ labels) =
    (label, lookup label stored, lookup label current) ∷ diff_of stored current labels

-- `failed_writes or None`
abbrev pub or_none : ℕ → Option ℕ
or_none zero = none
or_none (suc n) = some (suc n)

-- Why a key without an entry has none.
abbrev pub absent_reason : Bool → Bool → Reason
absent_reason marked is_evicted =
    if marked then invalidated else if is_evicted then evicted else not_found

abbrev pub failed_writes : Reason → ℕ → Option ℕ
failed_writes not_found errors = or_none errors
failed_writes _ errors = none

module _ (env : Env) where
  -- What is read from the store without an effect on it.
  unfoldable pub observe : {A : Type 0} → (env.World → Result env.Exn A) → M env A
  observe op s = (faulted (op s.world), s)

  -- The clamped clock as observers read it: it does not advance the last observed instant.
  unfoldable pub peek_now : M env ℕ
  peek_now s =
      let (reading, w) = env.clock s.world in
      (ok (clamp_clock s.last_observed reading), record s { world = w })

  -- With the fields of `common` alone.
  abbrev pub bare : HitOrMiss → Reason → String → ℕ → Explanation
  bare outcome reason key checked_at = record {
    outcome = outcome;
    reason = reason;
    key = key;
    namespace = env.namespace;
    fingerprint = env.fingerprint;
    checked_at = checked_at;
    created_at = none;
    expires_at = none;
    size_bytes = none;
    changed_dependencies = none;
    dependency_diff = none;
    write_errors = none;
  }

  -- With those of `facts` too.
  abbrev pub factual : HitOrMiss → Reason → String → ℕ → CacheEntry env.Value → Explanation
  factual outcome reason key checked_at entry = record (bare outcome reason key checked_at) {
    created_at = some entry.created_at;
    expires_at = entry.expires_at;
    size_bytes = entry.size;
  }

  abbrev pub explain_current :
      String → ℕ → CacheEntry env.Value → Option (Dict String) → Explanation
  explain_current key checked_at entry current =
      let changed = changed_labels entry.dependency_fingerprints current in
      if not (same_fingerprints entry.dependency_fingerprints current)
      then record (factual miss dependency_changed key checked_at entry) {
        changed_dependencies = some changed;
        dependency_diff =
            some (diff_of (or_empty entry.dependency_fingerprints) (or_empty current) changed);
      }
      else factual hit found key checked_at entry

  abbrev pub explain_entry : String → ℕ → Option (CacheEntry env.Value) → M env Explanation
  explain_entry key checked_at none = do
    marked ← gets (λ s. contains s.invalidation_markers key)
    is_evicted ← gets (λ s. contains s.eviction_markers key)
    failed ← gets (λ s. failed_writes (absent_reason marked is_evicted) (s.tallies write_errors))
    pure (record (bare miss (absent_reason marked is_evicted) key checked_at) {
      write_errors = failed;
    })
  explain_entry key checked_at (some entry) =
      if is_expired entry checked_at
      then pure (factual miss expired key checked_at entry)
      else if is_declared env.dependencies
      then (do
        current ← current_dependencies env
        pure (explain_current key checked_at entry current))
      else pure (factual hit found key checked_at entry)

  unfoldable pub explain_key : String → M env Explanation
  explain_key key = do
    checked_at ← peek_now
    quarantined ← gets (λ s. contains s.pending_invalidations key)
    if quarantined
        then pure (bare miss invalidated key checked_at)
        else (do entry ← observe (env.store.peek key); explain_entry key checked_at entry)

  unfoldable pub explain : env.Args → M env Explanation
  explain args = do key ← build_key env args; explain_key key
