-- ===== src/Observation/Listing.antt =====
-- src/cachau/decorator.py: what `inspect` lists, and in which order.
use cachau.Backend.{EntryMetadata}
use cachau.Control.{Env, State}
use cachau.Observation.Explain.{observe, peek_now}
use cachau.Observation.Inspect.{
  CacheEntryView, Inspection, created_later, newer, views_of, inspect, bytes_of, sum_bytes,
  total_bytes,
}
use cachau.Prelude.Exec.{Result, ok, raise, ◌>>=◌}
use cachau.Prelude.Sort.{insort, sorted, IsSorted, sorted-IsSorted, All-sorted}
use cachau.Prelude.{
  Bool, eq_iff, ap, sym, ◌∙◌, ℕ, String, List, [], ◌∷◌, Option, true, false, ◌≡◌, refl, arith,
  contains, All, str_eq, ◌&&◌, not, length, ◌+◌, Bool-cases, inl, inr,
}
use cachau.Observation.Totals.{stats, snapshot, usage}
use cachau.Stats.{CacheStats}
use cachau.Wrapper.{clamp_clock}

created_later_asymmetric : (a b : Option ℕ) → created_later a b ≡ true → created_later b a ≡ false
created_later_asymmetric a b h = ground arith

-- What a listed view must be: of the namespace, not quarantined.
pub record Listed (namespace : String) (pending : List String) (v : CacheEntryView) : Type 0 where
  pub in_namespace : v.namespace ≡ namespace
  pub unquarantined : contains pending v.key ≡ false

views_of-Listed :
    (namespace : String) (pending : List String) (t : ℕ) (rows : List EntryMetadata)
    → All (Listed namespace pending) (views_of namespace pending t rows)
unfolding views_of
views_of-Listed namespace pending t [] = tt
views_of-Listed namespace pending t (row ∷ rows) = elim (Bool-cases kept) [
  | inl e ↦ rw e (
    record {
      in_namespace = ground (arith, eq_iff row.namespace namespace);
      unquarantined = ground arith;
    },
    views_of-Listed namespace pending t rows,
  )
  | inr e ↦ rw e (views_of-Listed namespace pending t rows)
]
  where
    kept : Bool
    kept = str_eq row.namespace namespace && not (contains pending row.key)

sum-insort :
    (v : CacheEntryView) (l : List CacheEntryView)
    → (length (insort newer v l) ≡ length l + 1)
      × (sum_bytes (insort newer v l) ≡ bytes_of v.size_bytes + sum_bytes l)
unfolding insort sum_bytes
sum-insort v [] = (refl, refl)
sum-insort v (w ∷ l) = let (p, q) = sum-insort v l in (ground (arith, p), ground (arith, q))

sum-sorted :
    (l : List CacheEntryView)
    → (length (sorted newer l) ≡ length l) × (sum_bytes (sorted newer l) ≡ sum_bytes l)
unfolding sorted sum_bytes
sum-sorted [] = (refl, refl)
sum-sorted (v ∷ l) =
    let (p, q) = sum-sorted l in
    let (a, b) = sum-insort v (sorted newer l) in (omega (arith, p, a), omega (arith, q, b))

usage-views_of :
    (namespace : String) (t : ℕ) (rows : List EntryMetadata)
    → (length (views_of namespace [] t rows) ≡ (usage namespace rows).0)
      × (sum_bytes (views_of namespace [] t rows) ≡ (usage namespace rows).1)
unfolding views_of usage sum_bytes contains
usage-views_of namespace t [] = (refl, refl)
usage-views_of namespace t (row ∷ rows) =
    let (p, q) = usage-views_of namespace t rows in (ground (arith, p), ground (arith, q))

module _ (env : Env) where
  abbrev shown : State env.World → List EntryMetadata → List CacheEntryView
  shown s rows =
      views_of env.namespace s.pending_invalidations
        (clamp_clock s.last_observed (env.clock s.world).0) rows

  -- What the store answers, and what is made of it.
  listed :
      (s : State env.World) (i : Inspection)
      → (inspect env s).0 ≡ ok i
      → (rows : List EntryMetadata) × (env.store.iter_metadata (env.clock s.world).1 ≡ ok rows)
        × (i.entries ≡ sorted newer (shown s rows))
  unfolding inspect peek_now observe ◌>>=◌
  listed s i h = split (env.store.iter_metadata (env.clock s.world).1) refl
    where
      split :
          (r : Result env.Exn (List EntryMetadata))
          → env.store.iter_metadata (env.clock s.world).1 ≡ r
          → (rows : List EntryMetadata) × (env.store.iter_metadata (env.clock s.world).1 ≡ ok rows)
            × (i.entries ≡ sorted newer (shown s rows))
      split (ok rows) e = (rows, e, ground arith)
      split (raise x) e = ground arith

  inspect_world : (s : State env.World) → (inspect env s).1.world ≡ (env.clock s.world).1
  unfolding inspect peek_now observe ◌>>=◌
  inspect_world s = ground arith

  -- What is listed belongs to the namespace and is not quarantined, newest first.
  pub inspect-Listed :
      (s : State env.World) (i : Inspection)
      → (inspect env s).0 ≡ ok i
      → IsSorted newer i.entries × All (Listed env.namespace s.pending_invalidations) i.entries
  inspect-Listed s i h =
      let (rows, e, q) = listed s i h in
      rw q (
        sorted-IsSorted newer (λ a b. created_later_asymmetric a.created_at b.created_at)
            (shown s rows),
        All-sorted newer (Listed env.namespace s.pending_invalidations) (shown s rows)
            (views_of-Listed env.namespace s.pending_invalidations _ rows),
      )

  stats-usage :
      (s : State env.World) (rows : List EntryMetadata) (x : CacheStats)
      → env.store.iter_metadata s.world ≡ ok rows
      → (stats env s).0 ≡ ok x
      → (x.entries ≡ (usage env.namespace rows).0)
        × (x.current_bytes ≡ (usage env.namespace rows).1)
  unfolding stats snapshot observe ◌>>=◌
  stats-usage s rows x e h = (ground arith, ground arith)

  -- Where nothing is quarantined, `inspect` lists as many entries as `stats` counts right after it,
  -- and the same number of bytes.
  pub inspect-stats :
      (s : State env.World) (i : Inspection) (x : CacheStats)
      → s.pending_invalidations ≡ []
      → (inspect env s).0 ≡ ok i
      → (stats env (inspect env s).1).0 ≡ ok x
      → (length i.entries ≡ x.entries) × (total_bytes i ≡ x.current_bytes)
  unfolding total_bytes
  inspect-stats s i x clean h k =
      let (rows, e, q) = listed s i h in
      let (m, n) = sum-sorted (shown s rows) in
      let t = clamp_clock s.last_observed (env.clock s.world).0 in
      let (a, b) = usage-views_of env.namespace t rows in
      let (c, d) =
        stats-usage (inspect env s).1 rows x (ap env.store.iter_metadata (inspect_world s) ∙ e) k in
      (
        ap length q ∙ m ∙ ap (λ p. length (views_of env.namespace p t rows)) clean ∙ a ∙ sym c,
        ap sum_bytes q
            ∙ n
            ∙ ap (λ p. sum_bytes (views_of env.namespace p t rows)) clean
            ∙ b
            ∙ sym d,
      )
