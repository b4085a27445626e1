-- ===== src/Wrapper/Freshness.antt =====
-- What `serve_if_fresh` of src/cachau/decorator.py serves, and when.
use cachau.Backend.{reached, CacheEntry, is_expired}
use cachau.Control.{Env, State}
use cachau.Dependencies.{same_fingerprints}
use cachau.Prelude.Dict.{Dict}
use cachau.Prelude.Exec.{Result, continue, ok, raise, ◌>>=◌}
use cachau.Prelude.{
  ◌&&◌, ◌∙◌, ap, ℕ, ◌<◌, String, Bool, true, false, not, Option, none, some, ◌≡◌, refl, ◌↔◌, arith,
  contains,
}
use cachau.Wrapper.Action.{Fault, lift, touch_budget}
use cachau.Wrapper.Serve.{clamp_clock, fresh_entry, serve_if_fresh, serve, is_declared}

not-reached : (o : Option ℕ) (n : ℕ) → ((t : ℕ) → o ≡ some t → n < t) → reached o n ≡ false
not-reached none n h = refl
not-reached (some t) n h = ground (arith, h t refl)

not-outdated :
    (declared same : Bool) → (declared ≡ true → same ≡ true) → (declared && not same) ≡ false
not-outdated false same h = refl
not-outdated true same h = ground (arith, h refl)

module _ (env : Env) where
  -- What the clamped clock shows after the read of `key`.
  abbrev pub instant : String → State env.World → ℕ
  instant key s = clamp_clock s.last_observed (env.clock (env.store.get key s.world).1).0

  -- The store has the entry, the key is not quarantined by a failed invalidation, the instant is
  -- before the expiry, and the fingerprints are those observed, where dependencies are declared.
  pub record Servable (key : String) (d : Option (Dict String)) (s : State env.World)
      (e : CacheEntry env.Value) : Type 0 where
    pub found : (env.store.get key s.world).0 ≡ ok (some e)
    pub unquarantined : contains s.pending_invalidations key ≡ false
    pub unexpired : (t : ℕ) → e.expires_at ≡ some t → instant key s < t
    pub matching :
        is_declared env.dependencies ≡ true → same_fingerprints e.dependency_fingerprints d ≡ true

  fresh_entry-Servable :
      (key : String) (d : Option (Dict String)) (s : State env.World) (e : CacheEntry env.Value)
      → (fresh_entry env key d s).0 ≡ ok (some e)
      → Servable key d s e
  unfolding fresh_entry ◌>>=◌ lift is_expired
  fresh_entry-Servable key d s e h = record {
    found = ground arith;
    unquarantined = ground arith;
    unexpired = λ t x. ground arith;
    matching = λ x. ground arith;
  }

  Servable-fresh_entry :
      (key : String) (d : Option (Dict String)) (s : State env.World) (e : CacheEntry env.Value)
      → Servable key d s e
      → (fresh_entry env key d s).0 ≡ ok (some e)
  unfolding fresh_entry ◌>>=◌ lift is_expired
  Servable-fresh_entry key d s e h = ground (
    arith,
    h.found,
    h.unquarantined,
    not-reached e.expires_at (instant key s) h.unexpired,
    not-outdated (is_declared env.dependencies) (same_fingerprints e.dependency_fingerprints d)
        h.matching,
  )

  served_entry :
      (key : String) (d : Option (Dict String)) (coalesced : Bool) (s : State env.World)
      (v : env.Value)
      → (serve_if_fresh env key d coalesced s).0 ≡ ok (some v)
      → (e : CacheEntry env.Value) × ((fresh_entry env key d s).0 ≡ ok (some e)) × (e.value ≡ v)
  unfolding serve_if_fresh ◌>>=◌ touch_budget
  served_entry key d coalesced s v h = split (fresh_entry env key d s).0 refl h
    where
      split :
          (r : Result (Fault env.Exn) (Option (CacheEntry env.Value)))
          → (fresh_entry env key d s).0 ≡ r
          → (continue r (serve env key coalesced) (fresh_entry env key d s).1).0 ≡ ok (some v)
          → (e : CacheEntry env.Value) × ((fresh_entry env key d s).0 ≡ ok (some e)) × (e.value ≡ v)
      split (ok none) q k = cc
      split (ok (some e)) q k = (e, q, ground arith)
      split (raise x) q k = cc

  entry_served :
      (key : String) (d : Option (Dict String)) (coalesced : Bool) (s : State env.World)
      (e : CacheEntry env.Value)
      → (fresh_entry env key d s).0 ≡ ok (some e)
      → (serve_if_fresh env key d coalesced s).0 ≡ ok (some e.value)
  unfolding serve_if_fresh ◌>>=◌ touch_budget
  entry_served key d coalesced s e h = ground arith

  -- A value is served exactly where the store has an entry with it, the key is not quarantined, the
  -- clamped clock is before the expiry, and the fingerprints are the current ones, where
  -- dependencies are declared.
  pub serve_if_fresh-Servable :
      (key : String) (d : Option (Dict String)) (coalesced : Bool) (s : State env.World)
      (v : env.Value)
      → ((serve_if_fresh env key d coalesced s).0 ≡ ok (some v))
        ↔ ((e : CacheEntry env.Value) × Servable key d s e × (e.value ≡ v))
  serve_if_fresh-Servable key d coalesced s v = (
    λ h.
        let (e, fresh, same) = served_entry key d coalesced s v h in
        (e, fresh_entry-Servable key d s e fresh, same),
    λ r.
        let (e, servable, same) = r in
        entry_served key d coalesced s e (Servable-fresh_entry key d s e servable)
        ∙ ap (λ x. ok (some x)) same,
  )
