-- ===== src/Control/Tallying.antt =====
-- src/cachau/decorator.py: the state of `CacheControl` and its small methods.
use cachau.Flight.{Slots}
use cachau.Policy.{LruBudget}
use cachau.Prelude.{
  ℕ, zero, suc, ◌+◌, ◌-◌, ◌/◌, String, List, [], ◌∷◌, ◌++◌, Bool, Option, none, some, ◌==◌, length,
  drop, discard, if◌then◌else◌,
}

-- `TALLY_NAMES`
pub data Tally : Type 0 where
  hits coalesced_hits miss_not_found miss_expired miss_invalidated miss_dependency_changed : Tally
  miss_verification_failed writes evictions skipped_oversized dependency_race_skips : Tally
  size_estimate_failures write_errors delete_errors invalidations code_change_invalidations : Tally
  total_compute_seconds compute_count estimated_saved_seconds cold_compute_seconds : Tally
  verifications verification_failures process_coalesced_hits process_flight_timeouts : Tally
  process_lock_errors stale_locks_broken : Tally

-- The place of a name in `TALLY_NAMES`.
abbrev pub index : Tally → ℕ
index hits = 0
index coalesced_hits = 1
index miss_not_found = 2
index miss_expired = 3
index miss_invalidated = 4
index miss_dependency_changed = 5
index miss_verification_failed = 6
index writes = 7
index evictions = 8
index skipped_oversized = 9
index dependency_race_skips = 10
index size_estimate_failures = 11
index write_errors = 12
index delete_errors = 13
index invalidations = 14
index code_change_invalidations = 15
index total_compute_seconds = 16
index compute_count = 17
index estimated_saved_seconds = 18
index cold_compute_seconds = 19
index verifications = 20
index verification_failures = 21
index process_coalesced_hits = 22
index process_flight_timeouts = 23
index process_lock_errors = 24
index stale_locks_broken = 25

-- The attributes that `_bump` reads and writes by name.
abbrev pub Tallies : Type 0
Tallies = Tally → ℕ

abbrev pub add_to : Tally → ℕ → Tallies → Tallies
add_to name amount tallies other =
    if index name == index other then tallies other + amount else tallies other

-- The attributes of `CacheControl`, the variables of `_wrap` that change, and the outside world.
pub record State (World : Type 0) : Type 0 where
  pub tallies : Tallies
  pub saved_basis_seconds : ℕ
  pub saved_basis_count : ℕ
  -- ordered sets of keys, oldest first
  pub invalidation_markers : List String
  pub pending_invalidations : List String
  pub eviction_markers : List String
  pub pending_eviction_deletes : List String
  pub budget : Option LruBudget
  pub last_observed : Option ℕ
  pub slots : Slots
  pub world : World

abbrev pub marker_cap : ℕ
marker_cap = 4096

abbrev pub eviction_retry_batch : ℕ
eviction_retry_batch = 8

-- `marks[key] = None; marks.move_to_end(key)`, and `popitem(last=False)` down to the cap.
unfoldable pub note_mark : ℕ → String → List String → List String
note_mark cap key marks =
    let noted = discard key marks ++ key ∷ [] in drop (length noted - cap) noted

-- `_saved_basis_seconds / _saved_basis_count`, to the microsecond, where the count is not 0
abbrev pub credit : ℕ → ℕ → Tallies → Tallies
credit seconds zero tallies = tallies
credit seconds (suc n) tallies = add_to estimated_saved_seconds (seconds / suc n) tallies

-- What a commit adds to the savings basis; `none` is a cold computation, which stays out of it.
abbrev pub basis_seconds : Option ℕ → ℕ
basis_seconds none = 0
basis_seconds (some elapsed) = elapsed

abbrev pub basis_count : Option ℕ → ℕ
basis_count none = 0
basis_count (some elapsed) = 1

module _ {World : Type 0} where
  unfoldable pub bump : Tally → ℕ → State World → State World
  bump name amount s = record s { tallies = add_to name amount s.tallies }

  unfoldable pub record_hit : Bool → State World → State World
  record_hit coalesced s =
      let counted = add_to hits 1 s.tallies in
      let both = if coalesced then add_to coalesced_hits 1 counted else counted in
      record s { tallies = credit s.saved_basis_seconds s.saved_basis_count both }

  unfoldable pub record_commit : Option ℕ → State World → State World
  record_commit elapsed s = record s {
    tallies = add_to writes 1 s.tallies;
    saved_basis_seconds = s.saved_basis_seconds + basis_seconds elapsed;
    saved_basis_count = s.saved_basis_count + basis_count elapsed;
  }

  unfoldable pub record_compute : ℕ → State World → State World
  record_compute elapsed s = record s {
    tallies = add_to compute_count 1 (add_to total_compute_seconds elapsed s.tallies);
  }

  unfoldable pub note_eviction : String → State World → State World
  note_eviction key s = record s { eviction_markers = note_mark marker_cap key s.eviction_markers }

  unfoldable pub note_recached : String → State World → State World
  note_recached key s = record s { eviction_markers = discard key s.eviction_markers }
