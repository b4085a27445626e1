-- ===== src/Memory.antt =====
-- src/cachau/memory.py: `MemoryBackend`, a dictionary of entries. Its operations raise nothing.
pub mod Laws
use cachau.Backend.{CacheEntry, EntryMetadata, CacheBackend}
use cachau.Prelude.Dict.{Dict, lookup, insert, remove}
use cachau.Prelude.Exec.{ok}
use cachau.Prelude.{String, List, [], ◌∷◌, Option, none, some, str_eq, if◌then◌else◌}

module _ {V : Type 0} where
  unfoldable pub get : String → Dict (CacheEntry V) → Option (CacheEntry V)
  get key entries = lookup key entries

  unfoldable pub peek : String → Dict (CacheEntry V) → Option (CacheEntry V)
  peek key entries = lookup key entries

  unfoldable pub set : String → CacheEntry V → Dict (CacheEntry V) → Dict (CacheEntry V)
  set key entry entries = insert key entry entries

  unfoldable pub delete : String → Dict (CacheEntry V) → Dict (CacheEntry V)
  delete key entries = remove key entries

  -- The comprehension of `clear`: the entries of the other namespaces.
  unfoldable pub without_namespace : String → Dict (CacheEntry V) → Dict (CacheEntry V)
  without_namespace namespace [] = []
  without_namespace namespace ((key, entry) ∷ entries) =
      let rest = without_namespace namespace entries in
      if str_eq entry.namespace namespace then rest else (key, entry) ∷ rest

  unfoldable pub clear : Option String → Dict (CacheEntry V) → Dict (CacheEntry V)
  clear none entries = []
  clear (some namespace) entries = without_namespace namespace entries

  unfoldable pub iter_metadata : Dict (CacheEntry V) → List EntryMetadata
  iter_metadata [] = []
  iter_metadata ((key, entry) ∷ entries) =
      record {
        key = key;
        namespace = entry.namespace;
        size = entry.size;
        created_at = some entry.created_at;
        expires_at = entry.expires_at;
        dependency_fingerprints = entry.dependency_fingerprints;
      }
      ∷ iter_metadata entries

-- The backend as an implementation of the contract, in a world that holds its dictionary.
module _ {World V : Type 0} (Exn : Type 0) (entries_of : World → Dict (CacheEntry V))
    (keep : Dict (CacheEntry V) → World → World) where
  abbrev pub memory_backend : CacheBackend World V Exn
  memory_backend = record {
    get = λ key w. (ok (get key (entries_of w)), w);
    peek = λ key w. ok (peek key (entries_of w));
    set = λ key entry w. (ok tt, keep (set key entry (entries_of w)) w);
    delete = λ key w. (ok tt, keep (delete key (entries_of w)) w);
    clear = λ namespace w. (ok tt, keep (clear namespace (entries_of w)) w);
    iter_metadata = λ w. ok (iter_metadata (entries_of w));
  }
