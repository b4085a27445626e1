-- ===== src/Decoration/Purge.antt =====
-- src/cachau/decorator.py: what `_purge_stale_fingerprints` deletes, and what it leaves.
use cachau.Backend.Laws.{StoreLaws}
use cachau.Backend.{EntryMetadata, CacheBackend}
use cachau.Decoration.Startup.{is_stale, purge_if, purge_stale_fingerprints}
use cachau.Prelude.Exec.{ok}
use cachau.Prelude.{
  ℕ, ◌+◌, String, List, [], ◌∷◌, true, none, str_eq, ◌≡◌, ◌≢◌, refl, ap, sym, ◌∙◌, arith, All,
  Bool-cases, inl, inr, eq_iff, if◌then◌else◌,
}

-- How many rows are stale.
unfoldable pub stale_count : String → String → List EntryMetadata → ℕ
stale_count namespace fingerprint [] = 0
stale_count namespace fingerprint (row ∷ rows) =
    (if is_stale namespace fingerprint row then 1 else 0) + stale_count namespace fingerprint rows

module _ {World V Exn : Type 0} (store : CacheBackend World V Exn) where
  -- A store whose deletes succeed.
  abbrev pub IsReliable : Type 0
  IsReliable = (key : String) (w : World) → (store.delete key w).0 ≡ ok tt

  module _ (laws : StoreLaws store) where
    -- What is gone stays gone.
    pub gone_after_delete :
        IsReliable
        → (key other : String) (w : World) → (store.get other w).0 ≡ ok none
        → (store.get other (store.delete key w).1).0 ≡ ok none
    gone_after_delete reliable key other w h = elim (Bool-cases (str_eq key other)) [
      | inl e ↦
          ap (λ k. (store.get k (store.delete key w).1).0) (sym ((eq_iff key other).0 e))
          ∙ laws.get_after_delete key w (reliable key w)
      | inr e ↦
          laws.other_after_delete key other w (λ q. ground (arith, e, q, eq_iff key other)) ∙ h
    ]

    module _ (namespace fingerprint : String) where
      -- A key that no stale row has is left alone, whatever deletes do.
      pub purge_stale_fingerprints_apart :
          (key : String) (rows : List EntryMetadata) (w : World)
          → All (λ row. is_stale namespace fingerprint row ≡ true → row.key ≢ key) rows
          → (store.get key (purge_stale_fingerprints store namespace fingerprint rows w).1).0
            ≡ (store.get key w).0
      unfolding purge_stale_fingerprints
      purge_stale_fingerprints_apart key [] w h = refl
      purge_stale_fingerprints_apart key (row ∷ rows) w (h, hs) =
          elim (Bool-cases (is_stale namespace fingerprint row)) [
            | inl e ↦ rw e (
                purge_stale_fingerprints_apart key rows (store.delete row.key w).1 hs
                ∙ laws.other_after_delete row.key key w (h e))
            | inr e ↦ rw e (purge_stale_fingerprints_apart key rows w hs)
          ]

      purge-gone :
          IsReliable
          → (key : String) (rows : List EntryMetadata) (w : World) → (store.get key w).0 ≡ ok none
          → (store.get key (purge_stale_fingerprints store namespace fingerprint rows w).1).0
            ≡ ok none
      unfolding purge_stale_fingerprints
      purge-gone reliable key [] w h = h
      purge-gone reliable key (row ∷ rows) w h =
          elim (Bool-cases (is_stale namespace fingerprint row)) [
            | inl e ↦ rw e (
                purge-gone reliable key rows (store.delete row.key w).1
                  (gone_after_delete reliable row.key key w h))
            | inr e ↦ rw e (purge-gone reliable key rows w h)
          ]

      purge_gone-All :
          IsReliable
          → (rows : List EntryMetadata) (w : World)
          → All
              (λ row.
                is_stale namespace fingerprint row ≡ true
                → (store.get row.key
                    (purge_stale_fingerprints store namespace fingerprint rows w).1).0
                  ≡ ok none)
              rows
      unfolding purge_stale_fingerprints
      purge_gone-All reliable [] w = tt
      purge_gone-All reliable (row ∷ rows) w = (
        λ q. rw q (
            purge-gone reliable row.key rows (store.delete row.key w).1
              (laws.get_after_delete row.key w (reliable row.key w))),
        purge_gone-All reliable rows
            (purge_if store (is_stale namespace fingerprint row) row.key w).1,
      )

      purge-count :
          IsReliable
          → (rows : List EntryMetadata) (w : World)
          → (purge_stale_fingerprints store namespace fingerprint rows w).0
            ≡ stale_count namespace fingerprint rows
      unfolding purge_stale_fingerprints stale_count
      purge-count reliable [] w = refl
      purge-count reliable (row ∷ rows) w = elim (Bool-cases (is_stale namespace fingerprint row)) [
        | inl e ↦
            rw (e, reliable row.key w, purge-count reliable rows (store.delete row.key w).1) refl
        | inr e ↦ rw (e, purge-count reliable rows w) refl
      ]

      -- Over a store whose deletes succeed, the purge leaves no stale row's entry, and returns how
      -- many rows were stale.
      pub purge_stale_fingerprints_complete :
          IsReliable
          → (rows : List EntryMetadata) (w : World)
          → All
              (λ row.
                is_stale namespace fingerprint row ≡ true
                → (store.get row.key
                    (purge_stale_fingerprints store namespace fingerprint rows w).1).0
                  ≡ ok none)
              rows
            × ((purge_stale_fingerprints store namespace fingerprint rows w).0
                ≡ stale_count namespace fingerprint rows)
      purge_stale_fingerprints_complete reliable rows w =
          (purge_gone-All reliable rows w, purge-count reliable rows w)
