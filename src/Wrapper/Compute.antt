-- ===== src/Wrapper/Compute.antt =====
-- src/cachau/decorator.py: `_run_and_time`, `_classify_and_compute`, `_join_process_flight` and
-- `_compute_flight`.
use cachau.Backend.{CacheEntry, is_expired}
use cachau.Control.{
  Env, delete_errors, miss_not_found, miss_expired, miss_invalidated, miss_dependency_changed,
  total_compute_seconds, compute_count, cold_compute_seconds, process_coalesced_hits,
  process_flight_timeouts, process_lock_errors, stale_locks_broken, record_compute, record_hit,
}
use cachau.Interprocess.{
  ProcessLock, Outcome, acquired, served, timeout, unavailable, Joined, new_lock, release,
  coordinate,
}
use cachau.Prelude.Dict.{Dict}
use cachau.Prelude.Exec.{run, pure, gets, modify, attempt, finally, ◌>>=◌, ◌>>◌}
use cachau.Prelude.{
  second, ℕ, zero, suc, ◌+◌, ◌-◌, ◌*◌, ◌/◌, String, Bool, true, false, Option, none, some, ltb,
  ◌==◌, min_of, contains, discard, if◌then◌else◌,
}
use cachau.Wrapper.Action.{
  M, out_of_fuel, lift, ask, count, touch_budget, forget_budget, state_files,
}
use cachau.Wrapper.Commit.{safe_delete, commit_result}
use cachau.Wrapper.Serve.{now, fresh_entry, serve_if_fresh}

-- `specializations_before >= 0` and the dispatcher still says: did it grow? Otherwise, is it the
-- first computation?
abbrev pub grew : Option ℕ → Option ℕ → ℕ → Bool
grew (some before) (some after) computed = ltb before after
grew none after computed = computed == 1
grew (some before) none computed = computed == 1

-- The wait bound of `_join_process_flight`, from the number of computations and their time.
abbrev pub max_wait : ℕ → ℕ → ℕ
max_wait zero total = 60 * second
max_wait (suc n) total = min_of (3 * (total / suc n) + second) (600 * second)

module _ (env : Env) where
  unfoldable pub run_and_time : env.Args → M env (env.Value × ℕ × Bool)
  run_and_time args = do
    before ← gets (λ s. if env.jit_boundary then env.signatures s.world else none)
    started ← ask env env.perf_counter
    value ← lift env (env.func args)
    finished ← ask env env.perf_counter
    modify (record_compute (finished - started))
    is_cold_jit ← gets (λ s.
        if env.jit_boundary
        then grew before (env.signatures s.world) (s.tallies compute_count)
        else false)
    if is_cold_jit then count env cold_compute_seconds (finished - started) else pure tt
    pure (value, finished - started, is_cold_jit)

  -- The entry that the flight found is gone or not to be served: name the miss.
  abbrev pub classify_found : String → Option (CacheEntry env.Value) → M env (Unit {0})
  classify_found key none = do
    marked ← gets (λ s. contains s.invalidation_markers key)
    modify (λ s. record s { invalidation_markers = discard key s.invalidation_markers })
    count env (if marked then miss_invalidated else miss_not_found) 1
  classify_found key (some entry) = do
    safe_delete env key
    forget_budget env key
    t ← now env
    count env (if is_expired entry t then miss_expired else miss_dependency_changed) 1

  unfoldable pub classify : String → M env (Unit {0})
  classify key = do
    quarantined ← gets (λ s. contains s.pending_invalidations key)
    if quarantined
        then (do
          attempt (lift env (env.store.delete key))
              (λ _.
                modify
                  (λ s. record s { pending_invalidations = discard key s.pending_invalidations }))
              (count env delete_errors 1)
          forget_budget env key
          count env miss_invalidated 1)
        else (do found ← lift env (env.store.get key); classify_found key found)

  unfoldable pub classify_and_compute : String → env.Args → Option (Dict String) → M env env.Value
  classify_and_compute key args dep_fingerprints = do
    classify key
    (value, compute_elapsed, is_cold_jit) ← run_and_time args
    commit_result env key value dep_fingerprints compute_elapsed is_cold_jit
    pure value

  unfoldable pub probe : String → Option (Dict String) → M env (Option env.Value)
  probe key dep_fingerprints = do
    entry ← fresh_entry env key dep_fingerprints
    pure (elim entry [ none ↦ none | some e ↦ some e.value ])

  unfoldable pub join_process_flight :
      ProcessLock → String → Option (Dict String) → M env (Joined env.Value)
  join_process_flight lock key dep_fingerprints = do
    bound ← gets (λ s. max_wait (s.tallies compute_count) (s.tallies total_compute_seconds))
    coordinate (state_files env) (probe key dep_fingerprints) out_of_fuel env.fuel bound
        (5 * second) lock

  -- A value that another process committed.
  unfoldable pub serve_coalesced : String → env.Value → M env env.Value
  serve_coalesced key value = do
    modify (record_hit false)
    count env process_coalesced_hits 1
    touch_budget env key
    pure value

  abbrev pub recheck :
      String → env.Args → Option (Dict String) → Option (CacheEntry env.Value) → M env env.Value
  recheck key args dep_fingerprints (some entry) = serve_coalesced key entry.value
  recheck key args dep_fingerprints none = classify_and_compute key args dep_fingerprints

  -- The body of the `try` that releases the lock.
  unfoldable pub compute_joined : String → env.Args → Option (Dict String) → M env env.Value
  compute_joined key args dep_fingerprints = do
    entry ← fresh_entry env key dep_fingerprints
    recheck key args dep_fingerprints entry

  abbrev pub after_join :
      Outcome env.Value → ProcessLock → String → env.Args → Option (Dict String) → M env env.Value
  after_join (served value) lock key args dep_fingerprints = serve_coalesced key value
  after_join timeout lock key args dep_fingerprints = do
    count env process_flight_timeouts 1
    compute_joined key args dep_fingerprints
  after_join unavailable lock key args dep_fingerprints = do
    count env process_lock_errors 1
    compute_joined key args dep_fingerprints
  after_join acquired lock key args dep_fingerprints =
      finally (compute_joined key args dep_fingerprints) (λ s. (release (state_files env) lock s).1)

  unfoldable pub process_flight : String → env.Args → Option (Dict String) → M env env.Value
  process_flight key args dep_fingerprints = do
    lock ← run (new_lock (state_files env) (env.lock_path key))
    (outcome, lock', stale_broken) ← join_process_flight lock key dep_fingerprints
    if stale_broken == 0 then pure tt else count env stale_locks_broken stale_broken
    after_join outcome lock' key args dep_fingerprints

  abbrev pub compute_unserved :
      String → env.Args → Option (Dict String) → Option env.Value → M env env.Value
  compute_unserved key args dep_fingerprints (some value) = pure value
  compute_unserved key args dep_fingerprints none =
      if env.process_flight
      then process_flight key args dep_fingerprints
      else classify_and_compute key args dep_fingerprints

  unfoldable pub compute_flight : String → env.Args → Option (Dict String) → M env env.Value
  compute_flight key args dep_fingerprints = do
    found ← serve_if_fresh env key dep_fingerprints true
    compute_unserved key args dep_fingerprints found
