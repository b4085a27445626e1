-- ===== src/Backend/Laws.antt =====
-- What the callers of a store of src/cachau/backend.py rely on.
use cachau.Backend.{CacheEntry, CacheBackend}
use cachau.Prelude.Exec.{ok}
use cachau.Prelude.{String, none, some, ◌≡◌, ◌≢◌}

-- A delete that returns leaves nothing under its key, a write that returns leaves its entry, either
-- leaves the other keys alone, and `peek` sees what `get` returns.
pub record StoreLaws {World V Exn : Type 0} (store : CacheBackend World V Exn) : Type 0 where
  pub get_after_delete :
      (key : String) (w : World)
      → (store.delete key w).0 ≡ ok tt
      → (store.get key (store.delete key w).1).0 ≡ ok none
  pub get_after_set :
      (key : String) (entry : CacheEntry V) (w : World)
      → (store.set key entry w).0 ≡ ok tt
      → (store.get key (store.set key entry w).1).0 ≡ ok (some entry)
  pub other_after_delete :
      (key other : String) (w : World)
      → key ≢ other
      → (store.get other (store.delete key w).1).0 ≡ (store.get other w).0
  pub other_after_set :
      (key other : String) (entry : CacheEntry V) (w : World)
      → key ≢ other
      → (store.get other (store.set key entry w).1).0 ≡ (store.get other w).0
  pub get_is_peek : (key : String) (w : World) → (store.get key w).0 ≡ store.peek key w
