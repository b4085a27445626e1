-- ===== src/Observation/Totals.antt =====
-- src/cachau/decorator.py: `stats`.
use cachau.Backend.{EntryMetadata}
use cachau.Control
use cachau.Control.{Env, Tallies}
use cachau.Observation.Explain.{observe}
use cachau.Prelude.Exec.{pure, gets, ◌>>=◌}
use cachau.Prelude.{
  ℕ, zero, suc, ◌+◌, String, List, [], ◌∷◌, Option, none, some, str_eq, if◌then◌else◌,
}
use cachau.Stats.{CacheStats}
use cachau.Wrapper.{M}

-- `row.size` where it is recorded
abbrev pub size_or_zero : Option ℕ → ℕ
size_or_zero none = 0
size_or_zero (some size) = size

-- `(entries, current_bytes)` of one namespace
unfoldable pub usage : String → List EntryMetadata → ℕ × ℕ
usage namespace [] = (0, 0)
usage namespace (row ∷ rows) =
    let (entries, current_bytes) = usage namespace rows in
    if str_eq row.namespace namespace
    then (entries + 1, current_bytes + size_or_zero row.size)
    else (entries, current_bytes)

abbrev pub misses_in : Tallies → ℕ
misses_in tally =
    tally Control.miss_not_found
    + tally Control.miss_expired
    + tally Control.miss_invalidated
    + tally Control.miss_dependency_changed
    + tally Control.miss_verification_failed

-- `hits / total_calls if total_calls else 0.0`
abbrev pub rate : ℕ → ℕ → ℕ × ℕ
rate hits zero = (0, 1)
rate hits (suc total) = (hits, suc total)

unfoldable pub snapshot : Tallies → ℕ → ℕ → CacheStats
snapshot tally entries current_bytes = record {
  misses = misses_in tally;
  hit_rate = rate (tally Control.hits) (tally Control.hits + misses_in tally);
  expirations = tally Control.miss_expired;
  skipped_writes =
      tally Control.skipped_oversized
      + tally Control.dependency_race_skips
      + tally Control.size_estimate_failures
      + tally Control.write_errors;
  entries = entries;
  current_bytes = current_bytes;
  hits = tally Control.hits;
  coalesced_hits = tally Control.coalesced_hits;
  miss_not_found = tally Control.miss_not_found;
  miss_expired = tally Control.miss_expired;
  miss_invalidated = tally Control.miss_invalidated;
  miss_dependency_changed = tally Control.miss_dependency_changed;
  miss_verification_failed = tally Control.miss_verification_failed;
  writes = tally Control.writes;
  evictions = tally Control.evictions;
  skipped_oversized = tally Control.skipped_oversized;
  dependency_race_skips = tally Control.dependency_race_skips;
  size_estimate_failures = tally Control.size_estimate_failures;
  write_errors = tally Control.write_errors;
  delete_errors = tally Control.delete_errors;
  invalidations = tally Control.invalidations;
  code_change_invalidations = tally Control.code_change_invalidations;
  total_compute_seconds = tally Control.total_compute_seconds;
  estimated_saved_seconds = tally Control.estimated_saved_seconds;
  cold_compute_seconds = tally Control.cold_compute_seconds;
  verifications = tally Control.verifications;
  verification_failures = tally Control.verification_failures;
  process_coalesced_hits = tally Control.process_coalesced_hits;
  process_flight_timeouts = tally Control.process_flight_timeouts;
  process_lock_errors = tally Control.process_lock_errors;
  stale_locks_broken = tally Control.stale_locks_broken;
}

module _ (env : Env) where
  unfoldable pub stats : M env CacheStats
  stats = do
    rows ← observe env env.store.iter_metadata
    tally ← gets (λ s. s.tallies)
    pure (snapshot tally (usage env.namespace rows).0 (usage env.namespace rows).1)
