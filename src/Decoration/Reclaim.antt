-- ===== src/Decoration/Reclaim.antt =====
-- src/cachau/decorator.py: the store and the budget after a decoration's passes over the store.
use cachau.Backend.Laws.{StoreLaws}
use cachau.Backend.{EntryMetadata, CacheBackend}
use cachau.Decoration.Purge.{IsReliable, stale_count, purge_stale_fingerprints_complete}
use cachau.Decoration.Rehydrate.{rehydrate_budget-Tracked, readmit_all-gone, readmit_all-max_bytes}
use cachau.Decoration.Startup.{
  precedes, is_current, is_stale, sized_rows, purge_stale_fingerprints, rehydrate_budget, Started,
  start_up, rehydrate_if,
}
use cachau.Policy.Bounds.{IsValid, new_budget-IsValid}
use cachau.Policy.{LruBudget, new_budget}
use cachau.Prelude.Dict.{lookup}
use cachau.Prelude.Exec.{ok}
use cachau.Prelude.Sort.{sorted}
use cachau.Prelude.{
  ℕ, String, List, [], ◌∷◌, true, Option, none, some, is_some, ◌≡◌, refl, ◌∙◌, arith, All,
}

-- A consequence for every element.
All-map : {A : Type 0} {P Q : A → Type 0} (l : List A) → ((a : A) → P a → Q a) → All P l → All Q l
All-map [] f h = tt
All-map (a ∷ l) f (p, h) = (f a p, All-map l f h)

module _ {World V Exn : Type 0} (store : CacheBackend World V Exn) where
  -- The world after a decoration, for the rows that the store listed before it.
  pub record Reclaimed (namespace fingerprint : String) (rows : List EntryMetadata)
      (limit : Option ℕ) (r : Started × World) : Type 0 where
    pub stale_gone :
        All
          (λ row. is_stale namespace fingerprint row ≡ true → (store.get row.key r.1).0 ≡ ok none)
          rows
    pub counted : r.0.code_change_invalidations ≡ stale_count namespace fingerprint rows
    -- the budget, if there is one, knows every entry of the current code that has a size
    pub tracked :
        (max_memory_bytes : ℕ)
        → limit ≡ some max_memory_bytes
        → (budget : LruBudget) × (r.0.budget ≡ some budget)
          × (budget.max_bytes ≡ max_memory_bytes)
          × IsValid budget
          × All
              (λ row.
                is_current namespace fingerprint row ≡ true
                → is_some row.size ≡ true
                → lookup row.key budget.sizes ≡ none
                → (store.get row.key r.1).0 ≡ ok none)
              rows

  module _ (laws : StoreLaws store) (reliable : IsReliable store) where
    rehydrate_if-Reclaimed :
        (namespace fingerprint : String) (rows : List EntryMetadata) (limit : Option ℕ) (w : World)
        → Reclaimed namespace fingerprint rows limit (
            rehydrate_if store limit namespace fingerprint rows
              (purge_stale_fingerprints store namespace fingerprint rows w))
    unfolding rehydrate_budget new_budget
    rehydrate_if-Reclaimed namespace fingerprint rows none w =
        let (gone, n) =
          purge_stale_fingerprints_complete store laws namespace fingerprint reliable rows w in
        record { stale_gone = gone; counted = n; tracked = λ m q. cc }
    rehydrate_if-Reclaimed namespace fingerprint rows (some limit) w =
        let (gone, n) =
          purge_stale_fingerprints_complete store laws namespace fingerprint reliable rows w in
        let v = (purge_stale_fingerprints store namespace fingerprint rows w).1 in
        let (valid, tracked) =
          rehydrate_budget-Tracked store laws reliable (new_budget limit) namespace fingerprint rows
            v (new_budget-IsValid limit) in
        record {
          stale_gone =
              All-map rows
                (λ row f q.
                  readmit_all-gone store laws reliable
                    (sorted precedes (sized_rows namespace fingerprint rows)) (new_budget limit) v
                    row.key (f q))
                gone;
          counted = n;
          tracked = λ m q. (
            _,
            refl,
            readmit_all-max_bytes store (sorted precedes (sized_rows namespace fingerprint rows))
                  (new_budget limit) v
                ∙ ground (arith, q),
            valid,
            tracked,
          );
        }

    -- A decoration over a store that lists its rows and whose deletes succeed: no entry of older code
    -- stays, and each is counted; with a memory limit, the rehydrated budget is valid for that limit, and every entry
    -- of the current code whose size is known is counted in it or is gone.
    pub start_up-Reclaimed :
        (namespace fingerprint : String) (rows : List EntryMetadata) (limit : Option ℕ) (w : World)
        → store.iter_metadata w ≡ ok rows
        → (started : Started) × ((start_up store limit namespace fingerprint w).0 ≡ ok started)
          × Reclaimed namespace fingerprint rows limit
              (started, (start_up store limit namespace fingerprint w).1)
    unfolding start_up
    start_up-Reclaimed namespace fingerprint rows limit w h =
        rw h (_, refl, rehydrate_if-Reclaimed namespace fingerprint rows limit w)
