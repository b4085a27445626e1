-- ===== src/Decoration/Startup.antt =====
-- src/cachau/decorator.py: the passes over the store at decoration, `_purge_stale_fingerprints` and
-- `_rehydrate_budget`.
use text.Mathlib.Text.{starts_with}
use Prim.Native.String.{◌++◌ as ◌+++◌}
use cachau.Backend.{EntryMetadata, CacheBackend}
use cachau.Dependencies.Changes.{str_lt}
use cachau.Policy.{LruBudget, new_budget, fits, admit}
use cachau.Prelude.Exec.{Result, ok, raise}
use cachau.Prelude.Sort.{sorted}
use cachau.Prelude.{
  ℕ, ◌+◌, String, List, [], ◌∷◌, Bool, true, false, ◌&&◌, ◌||◌, not, Option, none, some, str_eq,
  ltb, ◌==◌, length, if◌then◌else◌,
}

abbrev pub current_prefix : String → String → String
current_prefix namespace fingerprint = namespace +++ (":" +++ (fingerprint +++ ":"))

-- The rows that the purge takes, and those that the rehydration looks at.
unfoldable pub is_stale : String → String → EntryMetadata → Bool
is_stale namespace fingerprint row =
    str_eq row.namespace namespace
    && not (starts_with row.key (current_prefix namespace fingerprint))

unfoldable pub is_current : String → String → EntryMetadata → Bool
is_current namespace fingerprint row =
    str_eq row.namespace namespace && starts_with row.key (current_prefix namespace fingerprint)

-- A tuple of `sized`.
pub record Sized : Type 0 where
  pub created_at : ℕ
  pub key : String
  pub size : ℕ

abbrev pub or_zero : Option ℕ → ℕ
or_zero none = 0
or_zero (some t) = t

abbrev pub sized_row : EntryMetadata → Option ℕ → List Sized → List Sized
sized_row row none rest = rest
sized_row row (some size) rest =
    record { created_at = or_zero row.created_at; key = row.key; size = size } ∷ rest

unfoldable pub sized_rows : String → String → List EntryMetadata → List Sized
unfolding is_current
sized_rows namespace fingerprint [] = []
sized_rows namespace fingerprint (row ∷ rows) =
    let rest = sized_rows namespace fingerprint rows in
    if is_current namespace fingerprint row then sized_row row row.size rest else rest

-- `<` on the tuples
unfoldable pub precedes : Sized → Sized → Bool
precedes a b =
    ltb a.created_at b.created_at
    || ((a.created_at == b.created_at)
        && (str_lt a.key b.key || (str_eq a.key b.key && ltb a.size b.size)))

-- What a decoration leaves in the control object.
pub record Started : Type 0 where
  pub code_change_invalidations : ℕ
  pub evictions : ℕ
  pub budget : Option LruBudget

module _ {World V Exn : Type 0} (store : CacheBackend World V Exn) where
  -- `_best_effort_delete`
  abbrev pub best_effort_delete : String → World → World
  best_effort_delete key w = (store.delete key w).1

  abbrev pub one_if_ok : Result Exn (Unit {0}) → ℕ
  one_if_ok (ok _) = 1
  one_if_ok (raise _) = 0

  -- One round of the loop, for a row that is stale or not.
  abbrev pub purge_if : Bool → String → World → ℕ × World
  purge_if true key w = (one_if_ok (store.delete key w).0, (store.delete key w).1)
  purge_if false key w = (0, w)

  unfoldable pub purge_stale_fingerprints : String → String → List EntryMetadata → World → ℕ × World
  unfolding is_stale
  purge_stale_fingerprints namespace fingerprint [] w = (0, w)
  purge_stale_fingerprints namespace fingerprint (row ∷ rows) w =
      let (n, v) = purge_if (is_stale namespace fingerprint row) row.key w in
      let (m, u) = purge_stale_fingerprints namespace fingerprint rows v in (n + m, u)

  unfoldable pub delete_all : List String → World → World
  delete_all [] w = w
  delete_all (key ∷ keys) w = delete_all keys (best_effort_delete key w)

  -- One round of the loop, for a row that fits or does not: the evictions, the budget, the world.
  abbrev pub readmit_if : Bool → LruBudget → Sized → World → ℕ × LruBudget × World
  readmit_if false budget row w = (1, budget, best_effort_delete row.key w)
  readmit_if true budget row w =
      let (admitted, evicted) = admit budget row.key row.size in
      (length evicted, admitted, delete_all evicted w)

  unfoldable pub readmit_all : List Sized → LruBudget → World → ℕ × LruBudget × World
  unfolding delete_all
  readmit_all [] budget w = (0, budget, w)
  readmit_all (row ∷ rows) budget w =
      let (n, b, v) = readmit_if (fits budget row.size) budget row w in
      let (m, c, u) = readmit_all rows b v in (n + m, c, u)

  unfoldable pub rehydrate_budget :
      LruBudget → String → String → List EntryMetadata → World → ℕ × LruBudget × World
  unfolding sorted sized_rows readmit_all precedes
  rehydrate_budget budget namespace fingerprint rows w =
      readmit_all (sorted precedes (sized_rows namespace fingerprint rows)) budget w

  abbrev pub rehydrate_if :
      Option ℕ → String → String → List EntryMetadata → ℕ × World → Started × World
  rehydrate_if none namespace fingerprint rows (purged, w) =
      (record { code_change_invalidations = purged; evictions = 0; budget = none }, w)
  rehydrate_if (some max_memory_bytes) namespace fingerprint rows (purged, w) =
      let (evictions, budget, v) =
        rehydrate_budget (new_budget max_memory_bytes) namespace fingerprint rows w in
      (
        record { code_change_invalidations = purged; evictions = evictions; budget = some budget },
        v,
      )

  abbrev pub with_rows :
      Option ℕ
      → String
      → String
      → Result Exn (List EntryMetadata)
      → World
      → Result Exn Started × World
  with_rows limit namespace fingerprint (raise e) w = (raise e, w)
  with_rows limit namespace fingerprint (ok rows) w =
      let (started, v) =
        rehydrate_if limit namespace fingerprint rows
          (purge_stale_fingerprints namespace fingerprint rows w) in
      (ok started, v)

  -- The part of `_wrap` that looks through the store: one snapshot of its rows for both passes.
  unfoldable pub start_up : Option ℕ → String → String → World → Result Exn Started × World
  unfolding purge_stale_fingerprints rehydrate_budget
  start_up limit namespace fingerprint w =
      with_rows limit namespace fingerprint (store.iter_metadata w) w
