-- ===== src/Backend.antt =====
-- src/cachau/backend.py: what a store holds, and the contract that every backend implements.
-- Instants and durations are microseconds. A store lives in a world; an operation returns its
-- result, or the exception that it raised, beside the world that it left.
pub mod Laws
use cachau.Prelude.Dict.{Dict}
use cachau.Prelude.Exec.{Result}
use cachau.Prelude.{ℕ, String, List, Bool, false, Option, none, some, leb}

pub record EntryMetadata : Type 0 where
  pub key : String
  pub namespace : String
  pub size : Option ℕ
  pub created_at : Option ℕ
  pub expires_at : Option ℕ
  pub dependency_fingerprints : Option (Dict String)

pub record CacheEntry (V : Type 0) : Type 0 where
  pub value : V
  pub namespace : String
  pub created_at : ℕ
  pub expires_at : Option ℕ
  pub size : Option ℕ
  pub dependency_fingerprints : Option (Dict String)

-- `expires_at is not None and now >= expires_at`
abbrev pub reached : Option ℕ → ℕ → Bool
reached none now = false
reached (some t) now = leb t now

unfoldable pub is_expired : {V : Type 0} → CacheEntry V → ℕ → Bool
is_expired e now = reached e.expires_at now

-- `CacheBackend`, with `peek` and `iter_metadata` free of effects.
pub record CacheBackend (World V Exn : Type 0) : Type 0 where
  pub get : String → World → Result Exn (Option (CacheEntry V)) × World
  pub peek : String → World → Result Exn (Option (CacheEntry V))
  pub set : String → CacheEntry V → World → Result Exn (Unit {0}) × World
  pub delete : String → World → Result Exn (Unit {0}) × World
  pub clear : Option String → World → Result Exn (Unit {0}) × World
  pub iter_metadata : World → Result Exn (List EntryMetadata)
