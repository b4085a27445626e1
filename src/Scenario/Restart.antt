-- ===== src/Scenario/Restart.antt =====
-- Decorating again, over a store that an earlier process filled.
use cachau.Backend.{CacheEntry, EntryMetadata}
use cachau.Decoration.Purge.{IsReliable}
use cachau.Decoration.Disjoint.{build_key-purge_stale_fingerprints}
use cachau.Wrapper.{build_key}
use cachau.Scenario.Calls.{program}
use cachau.Decoration.Startup.{start_up, purge_stale_fingerprints}
use cachau.Memory
use cachau.Policy.{admit, fits, forget, new_budget, evict_oldest}
use cachau.Prelude.Dict.{lookup, remove}
use cachau.Prelude.Exec.{ok}
use cachau.Prelude.{ℕ, [], ◌∷◌, none, some, List, ◌≡◌, refl}
use cachau.Scenario.Reports.{store_laws, stopped}
use cachau.Scenario.{Room, start}

abbrev sized_entry : ℕ → ℕ → CacheEntry ℕ
sized_entry created size = record {
  value = 1;
  namespace = "app.load";
  created_at = created;
  expires_at = none;
  size = some size;
  dependency_fingerprints = none;
}

-- Two entries of the current code, the newer one first, and one of older code.
abbrev pub filled : Room
filled = record (start.world) {
  entries =
      ("app.load:f0:b", sized_entry 200 80)
      ∷ ("app.load:f9:a", sized_entry 50 10)
      ∷ ("app.load:f0:a", sized_entry 100 70)
      ∷ [];
}

pub reliable : IsReliable stopped.store
unfolding Memory.delete
reliable key w = refl

abbrev pub listed : List EntryMetadata
unfolding Memory.iter_metadata
listed = Memory.iter_metadata filled.entries

pub lists : stopped.store.iter_metadata filled ≡ ok listed
unfolding listed Memory.iter_metadata
lists = refl

-- The older entry makes room for the newer one, which alone is kept.
restarted : start_up stopped.store (some 100) "app.load" "f0" filled ≡ (
  ok record {
    code_change_invalidations = 1;
    evictions = 1;
    budget = some record { max_bytes = 100; sizes = ("app.load:f0:b", 80) ∷ []; total = 80 };
  },
  record filled { entries = ("app.load:f0:b", sized_entry 200 80) ∷ [] },
)
unfolding start_up Memory.iter_metadata Memory.delete admit fits forget new_budget lookup remove
    evict_oldest
restarted = refl

built : (build_key stopped "x" start).0 ≡ ok "app.load:f0:x"
unfolding program
built = refl

build_key-purge_stale_fingerprints_example :
    (stopped.store.get "app.load:f0:x"
      (purge_stale_fingerprints stopped.store "app.load" "f0" listed filled).1).0
    ≡ (stopped.store.get "app.load:f0:x" filled).0
build_key-purge_stale_fingerprints_example =
    build_key-purge_stale_fingerprints stopped store_laws "x" start "app.load:f0:x" listed filled
      built
