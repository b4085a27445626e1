-- ===== src/Stats.antt =====
-- src/cachau/stats.py: the snapshot that `stats` returns.
use cachau.Prelude.{ℕ}

pub record CacheStats : Type 0 where
  pub hits : ℕ
  pub coalesced_hits : ℕ
  pub misses : ℕ
  -- a numerator and a denominator
  pub hit_rate : ℕ × ℕ
  pub miss_not_found : ℕ
  pub miss_expired : ℕ
  pub miss_invalidated : ℕ
  pub miss_dependency_changed : ℕ
  pub miss_verification_failed : ℕ
  pub expirations : ℕ
  pub writes : ℕ
  pub skipped_writes : ℕ
  pub skipped_oversized : ℕ
  pub dependency_race_skips : ℕ
  pub size_estimate_failures : ℕ
  pub write_errors : ℕ
  pub delete_errors : ℕ
  pub evictions : ℕ
  pub invalidations : ℕ
  pub code_change_invalidations : ℕ
  pub entries : ℕ
  pub current_bytes : ℕ
  pub total_compute_seconds : ℕ
  pub estimated_saved_seconds : ℕ
  pub cold_compute_seconds : ℕ
  pub verifications : ℕ
  pub verification_failures : ℕ
  pub process_coalesced_hits : ℕ
  pub process_flight_timeouts : ℕ
  pub process_lock_errors : ℕ
  pub stale_locks_broken : ℕ
