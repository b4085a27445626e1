-- ===== src/Decoration/Rehydrate.antt =====
-- src/cachau/decorator.py: the budget that `_rehydrate_budget` leaves, and the store with it.
use cachau.Decoration.Readmission.{
  readmit_if-IsValid, Tracked, readmit_if-Tracked, readmit_if-own, readmit_if-gone,
}
use cachau.Backend.Laws.{StoreLaws}
use cachau.Backend.{EntryMetadata, CacheBackend}
use cachau.Decoration.Purge.{IsReliable}
use cachau.Decoration.Startup.{
  Sized, precedes, is_current, sized_row, sized_rows, readmit_if, readmit_all, rehydrate_budget,
}
use cachau.Policy.Bounds.{IsValid}
use cachau.Policy.{LruBudget, fits, admit, forget}
use cachau.Prelude.Dict.{lookup}
use cachau.Prelude.Exec.{ok}
use cachau.Prelude.Sort.{sorted, All-unsorted}
use cachau.Prelude.{
  ℕ, String, List, [], ◌∷◌, Bool, true, false, Option, none, some, is_some, ◌≡◌, refl, ◌∙◌, All,
  if◌then◌else◌,
}

module _ {World V Exn : Type 0} (store : CacheBackend World V Exn) where
  readmit_all-IsValid :
      (rows : List Sized) (budget : LruBudget) (w : World)
      → IsValid budget
      → IsValid (readmit_all store rows budget w).1
  unfolding readmit_all
  readmit_all-IsValid [] budget w v = v
  readmit_all-IsValid (row ∷ rows) budget w v =
      readmit_all-IsValid rows _ _ (readmit_if-IsValid store budget row w v)

  pub readmit_all-max_bytes :
      (rows : List Sized) (budget : LruBudget) (w : World)
      → (readmit_all store rows budget w).1.max_bytes ≡ budget.max_bytes
  unfolding readmit_all admit forget
  readmit_all-max_bytes [] budget w = refl
  readmit_all-max_bytes (row ∷ rows) budget w =
      readmit_all-max_bytes rows _ _ ∙ kept (fits budget row.size)
    where
      kept : (b : Bool) → (readmit_if store b budget row w).1.max_bytes ≡ budget.max_bytes
      kept true = refl
      kept false = refl

  module _ (laws : StoreLaws store) (reliable : IsReliable store) where
    readmit_all-Tracked :
        (rows : List Sized) (budget : LruBudget) (w : World) (key : String)
        → IsValid budget
        → Tracked store laws reliable budget w key
        → Tracked store laws reliable
            (readmit_all store rows budget w).1
            (readmit_all store rows budget w).2
            key
    unfolding readmit_all
    readmit_all-Tracked [] budget w key v h = h
    readmit_all-Tracked (row ∷ rows) budget w key v h =
        readmit_all-Tracked rows _ _ key (readmit_if-IsValid store budget row w v)
          (readmit_if-Tracked store laws reliable budget row w key v h)

    -- An entry that is gone is not brought back.
    pub readmit_all-gone :
        (rows : List Sized) (budget : LruBudget) (w : World) (key : String)
        → (store.get key w).0 ≡ ok none
        → (store.get key (readmit_all store rows budget w).2).0 ≡ ok none
    unfolding readmit_all
    readmit_all-gone [] budget w key h = h
    readmit_all-gone (row ∷ rows) budget w key h =
        readmit_all-gone rows _ _ key (readmit_if-gone store laws reliable budget row w key h)

    readmit_all-All :
        (rows : List Sized) (budget : LruBudget) (w : World)
        → IsValid budget
        → All
            (λ row.
              Tracked store laws reliable
                (readmit_all store rows budget w).1
                (readmit_all store rows budget w).2
                row.key)
            rows
    unfolding readmit_all
    readmit_all-All [] budget w v = tt
    readmit_all-All (row ∷ rows) budget w v = (
      readmit_all-Tracked rows _ _ row.key (readmit_if-IsValid store budget row w v)
          (readmit_if-own store laws reliable budget row w v),
      readmit_all-All rows _ _ (readmit_if-IsValid store budget row w v),
    )

All-sized_row :
    (P : String → Type 0) (row : EntryMetadata) (rest : List Sized) (b : Bool) (size : Option ℕ)
    → All (λ s. P s.key) (if b then sized_row row size rest else rest)
    → (b ≡ true → is_some size ≡ true → P row.key) × All (λ s. P s.key) rest
All-sized_row P row rest false size h = (λ q. cc, h)
All-sized_row P row rest true none h = (λ q r. cc, h)
All-sized_row P row rest true (some n) (p, h) = (λ q r. p, h)

All-sized_rows :
    (P : String → Type 0) (namespace fingerprint : String) (rows : List EntryMetadata)
    → All (λ s. P s.key) (sized_rows namespace fingerprint rows)
    → All
        (λ row. is_current namespace fingerprint row ≡ true → is_some row.size ≡ true → P row.key)
        rows
unfolding sized_rows
All-sized_rows P namespace fingerprint [] h = tt
All-sized_rows P namespace fingerprint (row ∷ rows) h =
    let (p, rest) = All-sized_row P row _ (is_current namespace fingerprint row) row.size h in
    (p, All-sized_rows P namespace fingerprint rows rest)

module _ {World V Exn : Type 0} (store : CacheBackend World V Exn) where
  -- Rehydration over a store whose deletes succeed: the budget is kept, and every entry of the
  -- current code whose size is known is counted in it or is gone from the store.
  pub rehydrate_budget-Tracked :
      (laws : StoreLaws store) (reliable : IsReliable store) (budget : LruBudget)
      (namespace fingerprint : String) (rows : List EntryMetadata) (w : World)
      → IsValid budget
      → let (n, after, v) = rehydrate_budget store budget namespace fingerprint rows w in
        IsValid after
        × All
            (λ row.
              is_current namespace fingerprint row ≡ true
              → is_some row.size ≡ true
              → lookup row.key after.sizes ≡ none
              → (store.get row.key v).0 ≡ ok none)
            rows
  unfolding rehydrate_budget
  rehydrate_budget-Tracked laws reliable budget namespace fingerprint rows w v = (
    readmit_all-IsValid store (sorted precedes (sized_rows namespace fingerprint rows)) budget w v,
    All-sized_rows _ namespace fingerprint rows
        (All-unsorted precedes _ _ (readmit_all-All store laws reliable _ budget w v)),
  )
