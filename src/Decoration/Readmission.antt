-- ===== src/Decoration/Readmission.antt =====
-- src/cachau/decorator.py: one round of `_rehydrate_budget`, on the budget and on the store.
use cachau.Backend.Laws.{StoreLaws}
use cachau.Backend.{CacheBackend}
use cachau.Decoration.Purge.{IsReliable, gone_after_delete}
use cachau.Decoration.Startup.{Sized, readmit_if, delete_all}
use cachau.Policy.Admission.{admit_shortest_prefix}
use cachau.Policy.Bounds.{IsValid, admit-IsValid}
use cachau.Policy.{LruBudget, fits, admit}
use cachau.Prelude.Dict.{Dict, lookup, remove, keys, lookup-append, lookup-remove}
use cachau.Prelude.Exec.{ok}
use cachau.Prelude.{
  ℕ, String, List, [], ◌∷◌, true, false, none, some, is_some, str_eq, ◌≡◌, ap, sym, ◌∙◌, arith,
  Bool-cases, Option-cases, inl, inr, eq_iff, eq_refl, contains, take, drop, length, zero, suc,
}

module _ {World V Exn : Type 0} (store : CacheBackend World V Exn) where
  pub readmit_if-IsValid :
      (budget : LruBudget) (row : Sized) (w : World)
      → IsValid budget
      → IsValid (readmit_if store (fits budget row.size) budget row w).1
  readmit_if-IsValid budget row w v = elim (Bool-cases (fits budget row.size)) [
    | inl e ↦ rw e (admit-IsValid row.key row.size v e)
    | inr e ↦ rw e v
  ]

  module _ (laws : StoreLaws store) (reliable : IsReliable store) where
    -- The key is in the budget, or its entry is gone.
    abbrev pub Tracked : LruBudget → World → String → Type 0
    Tracked budget w key = lookup key budget.sizes ≡ none → (store.get key w).0 ≡ ok none

    delete_all-gone :
        (keys : List String) (key : String) (w : World)
        → (store.get key w).0 ≡ ok none
        → (store.get key (delete_all store keys w)).0 ≡ ok none
    unfolding delete_all
    delete_all-gone [] key w h = h
    delete_all-gone (k ∷ ks) key w h =
        delete_all-gone ks key (store.delete k w).1
          (gone_after_delete store laws reliable k key w h)

    delete_all-contains :
        (keys : List String) (key : String) (w : World)
        → contains keys key ≡ true
        → (store.get key (delete_all store keys w)).0 ≡ ok none
    unfolding delete_all contains
    delete_all-contains [] key w h = cc
    delete_all-contains (k ∷ ks) key w h = elim (Bool-cases (str_eq k key)) [
      | inl e ↦ delete_all-gone ks key (store.delete k w).1 (
          ap (λ j. (store.get j (store.delete k w).1).0) (sym ((eq_iff k key).0 e))
          ∙ laws.get_after_delete k w (reliable k w))
      | inr e ↦ delete_all-contains ks key (store.delete k w).1 (ground (arith, h, e))
    ]

  -- A key of a dict is among its first `n` or among the others.
  lookup-split :
      (n : ℕ) (key : String) (d : Dict ℕ)
      → is_some (lookup key d) ≡ true
      → lookup key (drop n d) ≡ none
      → contains (keys (take n d)) key ≡ true
  unfolding lookup contains
  lookup-split zero key d h g = ground (arith, h, g)
  lookup-split (suc n) key [] h g = cc
  lookup-split (suc n) key ((k, size) ∷ d) h g = ground (arith, h, g, lookup-split n key d)

  absent_parts :
      (key : String) (d : Dict ℕ) (k : String) (size : ℕ)
      → elim (lookup key d) [ none ↦ lookup key ((k, size) ∷ []) | some v ↦ some v ] ≡ none
      → (lookup key d ≡ none) × (str_eq k key ≡ false)
  unfolding lookup
  absent_parts key d k size h = elim (Option-cases (lookup key d)) [
    | inl e ↦ (e, ground (arith, e, h))
    | inr (v, e) ↦ (ground (arith, e, h), ground (arith, e, h))
  ]

  -- A key that is not in the budget after an admission is not the admitted one, and not among those
  -- that were kept.
  admit-absent :
      (budget : LruBudget) (row : Sized) (key : String)
      → IsValid budget
      → lookup key (admit budget row.key row.size).0.sizes ≡ none
      → (lookup key (drop (length (admit budget row.key row.size).1) (remove row.key budget.sizes))
          ≡ none)
        × (str_eq row.key key ≡ false)
  admit-absent budget row key v free =
      let kept = drop (length (admit budget row.key row.size).1) (remove row.key budget.sizes) in
      absent_parts key kept row.key row.size (
        sym (lookup-append key kept ((row.key, row.size) ∷ []))
        ∙ ap (lookup key) (sym (admit_shortest_prefix budget row.key row.size v).1)
        ∙ free)

  module _ (laws : StoreLaws store) (reliable : IsReliable store) where
    admit-Tracked :
        (budget : LruBudget) (row : Sized) (w : World) (key : String)
        → IsValid budget
        → Tracked laws reliable budget w key
        → Tracked laws reliable
            (admit budget row.key row.size).0
            (delete_all store (admit budget row.key row.size).1 w)
            key
    admit-Tracked budget row w key v h free =
        let n = length (admit budget row.key row.size).1 in
        let rest = remove row.key budget.sizes in
        let a = admit_shortest_prefix budget row.key row.size v in
        let parts = admit-absent budget row key v free in
        let same = lookup-remove row.key key budget.sizes in
        elim (Option-cases (lookup key budget.sizes)) [
          | inl e ↦ delete_all-gone laws reliable _ key w (h e)
          | inr (size, e) ↦ delete_all-contains laws reliable _ key w (
              ap (λ l. contains l key) a.0
              ∙ lookup-split n key rest (ground (arith, same, e, parts.1)) parts.0)
        ]

    pub readmit_if-Tracked :
        (budget : LruBudget) (row : Sized) (w : World) (key : String)
        → IsValid budget
        → Tracked laws reliable budget w key
        → Tracked laws reliable
            (readmit_if store (fits budget row.size) budget row w).1
            (readmit_if store (fits budget row.size) budget row w).2
            key
    readmit_if-Tracked budget row w key v h = elim (Bool-cases (fits budget row.size)) [
      | inl e ↦ rw e (admit-Tracked budget row w key v h)
      | inr e ↦ rw e (λ free. gone_after_delete store laws reliable row.key key w (h free))
    ]

    -- The row's own key.
    pub readmit_if-own :
        (budget : LruBudget) (row : Sized) (w : World)
        → IsValid budget
        → Tracked laws reliable
            (readmit_if store (fits budget row.size) budget row w).1
            (readmit_if store (fits budget row.size) budget row w).2
            row.key
    readmit_if-own budget row w v = elim (Bool-cases (fits budget row.size)) [
      | inl e ↦
          rw e (λ free. ground (arith, eq_refl row.key, (admit-absent budget row row.key v free).1))
      | inr e ↦ rw e (λ free. laws.get_after_delete row.key w (reliable row.key w))
    ]

    pub readmit_if-gone :
        (budget : LruBudget) (row : Sized) (w : World) (key : String)
        → (store.get key w).0 ≡ ok none
        → (store.get key (readmit_if store (fits budget row.size) budget row w).2).0 ≡ ok none
    readmit_if-gone budget row w key h = elim (Bool-cases (fits budget row.size)) [
      | inl e ↦ rw e (delete_all-gone laws reliable _ key w h)
      | inr e ↦ rw e (gone_after_delete store laws reliable row.key key w h)
    ]
