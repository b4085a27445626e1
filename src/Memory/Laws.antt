-- ===== src/Memory/Laws.antt =====
-- src/cachau/memory.py: `MemoryBackend` is a store in the sense of its contract.
use cachau.Backend.Laws.{StoreLaws}
use cachau.Backend.{CacheEntry}
use cachau.Memory.{get, peek, set, delete, without_namespace, clear, memory_backend}
use cachau.Prelude.Dict.{
  Dict, lookup, insert, remove, IsDistinct, nil, cons, lookup-insert, lookup-remove,
}
use cachau.Prelude.{
  String, Option, none, some, str_eq, ◌≡◌, refl, arith, eq_iff, eq_refl, if◌then◌else◌,
}

module _ {World V : Type 0} (Exn : Type 0) (entries_of : World → Dict (CacheEntry V))
    (keep : Dict (CacheEntry V) → World → World)
    (kept : (d : Dict (CacheEntry V)) (w : World) → entries_of (keep d w) ≡ d) where
  -- MemoryBackend keeps the contract of a store in any world that holds its dictionary: a write is
  -- found, a delete leaves nothing, other keys are untouched, peek agrees with get.
  pub memory_backend-StoreLaws : StoreLaws (memory_backend Exn entries_of keep)
  unfolding get peek set delete
  memory_backend-StoreLaws = record {
    get_after_delete = λ key w h. rw (kept, lookup-remove key key (entries_of w), eq_refl key) refl;
    get_after_set =
        λ key entry w h. rw (kept, lookup-insert key key entry (entries_of w), eq_refl key) refl;
    other_after_delete = λ key other w h. ground (
      arith,
      kept (remove key (entries_of w)) w,
      lookup-remove key other (entries_of w),
      eq_iff key other,
    );
    other_after_set = λ key other entry w h. ground (
      arith,
      kept (insert key entry (entries_of w)) w,
      lookup-insert key other entry (entries_of w),
      eq_iff key other,
    );
    get_is_peek = λ key w. refl;
  }

module _ {V : Type 0} where
  abbrev pub unless_in : String → Option (CacheEntry V) → Option (CacheEntry V)
  unless_in namespace none = none
  unless_in namespace (some e) = if str_eq e.namespace namespace then none else some e

  -- Clearing a namespace removes its entries and no other, in a dictionary without repeated keys:
  -- each key keeps the entry that it had, unless this entry is of the namespace.
  pub get-clear :
      (key namespace : String) {entries : Dict (CacheEntry V)}
      → IsDistinct entries
      → get key (clear (some namespace) entries) ≡ unless_in namespace (get key entries)
  unfolding get clear without_namespace lookup
  get-clear key namespace nil = refl
  get-clear key namespace (cons {k = j} {v = e} {d} h t) =
      ground (arith, get-clear key namespace t, h, eq_iff j key)
