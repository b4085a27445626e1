-- ===== src/Wrapper/Commit.antt =====
-- src/cachau/decorator.py: `safe_delete`, `evict_delete`, `drain_pending_evictions` and
-- `_commit_result`.
use cachau.Backend.{CacheEntry}
use cachau.Control.{
  Env, delete_errors, dependency_race_skips, size_estimate_failures, skipped_oversized,
  write_errors, evictions, marker_cap, eviction_retry_batch, note_mark, note_eviction,
  note_recached, record_commit,
}
use cachau.Dependencies.{same_fingerprints}
use cachau.Policy.{LruBudget, fits, admit}
use cachau.Prelude.Dict.{Dict}
use cachau.Prelude.Exec.{pure, gets, modify, attempt, ◌>>=◌, ◌>>◌}
use cachau.Prelude.Int.{ℤ, pos, negsuc}
use cachau.Prelude.{
  ℕ, ◌+◌, String, List, [], ◌∷◌, Bool, not, Option, none, some, str_eq, take, discard,
  if◌then◌else◌,
}
use cachau.Wrapper.Action.{M, lift, count}
use cachau.Wrapper.Serve.{now, current_dependencies, is_declared}

-- Every key but one.
unfoldable pub others : String → List String → List String
others key [] = []
others key (k ∷ keys) = let rest = others key keys in if str_eq k key then rest else k ∷ rest

module _ (env : Env) where
  unfoldable pub safe_delete : String → M env (Unit {0})
  safe_delete key = attempt (lift env (env.store.delete key)) pure (count env delete_errors 1)

  unfoldable pub evict_delete : String → M env (Unit {0})
  evict_delete key = attempt (lift env (env.store.delete key)) pure do
    count env delete_errors 1
    modify (λ s. record s {
      pending_eviction_deletes = note_mark marker_cap key s.pending_eviction_deletes;
    })

  -- One retry of `drain_pending_evictions`.
  unfoldable pub retry_delete : String → M env (Unit {0})
  retry_delete key =
      attempt (lift env (env.store.delete key))
        (λ _.
          modify
            (λ s. record s { pending_eviction_deletes = discard key s.pending_eviction_deletes }))
        (pure tt)

  unfoldable pub retry_all : List String → M env (Unit {0})
  unfolding retry_delete
  retry_all [] = pure tt
  retry_all (key ∷ batch) = do retry_delete key; retry_all batch

  unfoldable pub drain_pending_evictions : String → M env (Unit {0})
  drain_pending_evictions current_key = do
    batch ← gets (λ s. take eviction_retry_batch (others current_key s.pending_eviction_deletes))
    retry_all batch

  -- The loop over what `budget.admit` returned.
  unfoldable pub evict_all : List String → M env (Unit {0})
  unfolding evict_delete
  evict_all [] = pure tt
  evict_all (key ∷ evicted) = do
    evict_delete key
    count env evictions 1
    modify (note_eviction key)
    evict_all evicted

  -- There is a size exactly where there is a budget.
  abbrev pub admit_into : Option LruBudget → String → Option ℕ → M env (Unit {0})
  admit_into none key size = pure tt
  admit_into (some b) key none = pure tt
  admit_into (some b) key (some size) =
      let (b', evicted) = admit b key size in
      do modify (λ s. record s { budget = some b' }); evict_all evicted

  unfoldable pub after_write : String → Option ℕ → ℕ → Bool → M env (Unit {0})
  after_write key size compute_elapsed is_cold_jit = do
    budget ← gets (λ s. s.budget)
    admit_into budget key size
    modify (λ s. record s { pending_eviction_deletes = discard key s.pending_eviction_deletes })
    drain_pending_evictions key
    modify (record_commit (if is_cold_jit then none else some compute_elapsed))
    modify (λ s. record s { pending_invalidations = discard key s.pending_invalidations })
    modify (note_recached key)

  abbrev pub expiry : ℕ → Option ℕ → Option ℕ
  expiry committed_at none = none
  expiry committed_at (some ttl) = some (committed_at + ttl)

  -- The `CacheEntry(...)` of `_commit_result`.
  abbrev pub new_entry : env.Value → ℕ → Option ℕ → Option (Dict String) → CacheEntry env.Value
  new_entry value committed_at size dep_fingerprints = record {
    value = value;
    namespace = env.namespace;
    created_at = committed_at;
    expires_at = expiry committed_at env.ttl_seconds;
    size = size;
    dependency_fingerprints = dep_fingerprints;
  }

  unfoldable pub write :
      String → env.Value → ℕ → Option ℕ → Option (Dict String) → ℕ → Bool → M env (Unit {0})
  write key value committed_at size dep_fingerprints compute_elapsed is_cold_jit =
      attempt (lift env (env.store.set key (new_entry value committed_at size dep_fingerprints)))
        (λ _. after_write key size compute_elapsed is_cold_jit) (count env write_errors 1)

  -- `int(size_of(value))` came back.
  abbrev pub write_sized :
      LruBudget → ℤ → String → env.Value → ℕ → Option (Dict String) → ℕ → Bool → M env (Unit {0})
  write_sized b (negsuc n) key value committed_at dep_fingerprints compute_elapsed is_cold_jit =
      count env size_estimate_failures 1
  write_sized b (pos size) key value committed_at dep_fingerprints compute_elapsed is_cold_jit =
      if fits b size
      then write key value committed_at (some size) dep_fingerprints compute_elapsed is_cold_jit
      else count env skipped_oversized 1

  abbrev pub write_under :
      Option LruBudget → String → env.Value → ℕ → Option (Dict String) → ℕ → Bool → M env (Unit {0})
  write_under none key value committed_at dep_fingerprints compute_elapsed is_cold_jit =
      write key value committed_at none dep_fingerprints compute_elapsed is_cold_jit
  write_under (some b) key value committed_at dep_fingerprints compute_elapsed is_cold_jit =
      attempt (lift env (env.size_of value))
        (λ size.
          write_sized b size key value committed_at dep_fingerprints compute_elapsed is_cold_jit)
        (count env size_estimate_failures 1)

  unfoldable pub commit_stable :
      String → env.Value → Option (Dict String) → ℕ → Bool → M env (Unit {0})
  commit_stable key value dep_fingerprints compute_elapsed is_cold_jit = do
    committed_at ← now env
    budget ← gets (λ s. s.budget)
    write_under budget key value committed_at dep_fingerprints compute_elapsed is_cold_jit

  unfoldable pub commit_result :
      String → env.Value → Option (Dict String) → ℕ → Bool → M env (Unit {0})
  commit_result key value dep_fingerprints compute_elapsed is_cold_jit =
      if is_declared env.dependencies
      then (do
        dep_after ← current_dependencies env
        if not (same_fingerprints dep_after dep_fingerprints)
            then count env dependency_race_skips 1
            else commit_stable key value dep_after compute_elapsed is_cold_jit)
      else commit_stable key value dep_fingerprints compute_elapsed is_cold_jit
