-- ===== src/Wrapper/Serve.antt =====
-- src/cachau/decorator.py: `now`, `build_key`, `current_dependencies`, `_fresh_entry` and
-- `serve_if_fresh`.
use cachau.Backend.{CacheEntry, is_expired}
use cachau.Control.{Env, record_hit}
use cachau.Dependencies.{fingerprint_dependencies, same_fingerprints}
use cachau.Prelude.Dict.{Dict}
use cachau.Prelude.Exec.{ok, pure, gets, modify, ◌>>=◌, ◌>>◌}
use cachau.Prelude.{
  ℕ, String, List, [], ◌∷◌, Bool, true, false, ◌&&◌, not, Option, none, some, max_of, contains,
  if◌then◌else◌,
}
use cachau.Wrapper.Action.{M, lift, touch_budget}
use Prim.Native.String.{◌++◌ as ◌+++◌}

-- `max(last_observed, clock())`, where `none` is minus infinity
abbrev pub clamp_clock : Option ℕ → ℕ → ℕ
clamp_clock none reading = reading
clamp_clock (some last) reading = max_of last reading

-- The tuple `dependencies` is not empty.
abbrev pub is_declared : List String → Bool
is_declared [] = false
is_declared (label ∷ labels) = true

module _ (env : Env) where
  unfoldable pub now : M env ℕ
  now s =
      let (reading, w) = env.clock s.world in
      let t = clamp_clock s.last_observed reading in
      (ok t, record s { last_observed = some t; world = w })

  unfoldable pub build_key : env.Args → M env String
  build_key args = do
    digest ← lift env (env.digest args)
    pure (env.namespace +++ (":" +++ (env.fingerprint +++ (":" +++ digest))))

  unfoldable pub current_dependencies : M env (Option (Dict String))
  unfolding fingerprint_dependencies
  current_dependencies =
      fingerprint_dependencies (λ label. lift env (env.fingerprint_of label)) env.dependencies

  -- `dependencies and entry.dependency_fingerprints != dep_fingerprints`
  abbrev pub is_outdated : CacheEntry env.Value → Option (Dict String) → Bool
  is_outdated entry dep_fingerprints =
      is_declared env.dependencies
      && not (same_fingerprints entry.dependency_fingerprints dep_fingerprints)

  abbrev pub fresh_found :
      String
      → Option (Dict String)
      → Option (CacheEntry env.Value)
      → M env (Option (CacheEntry env.Value))
  fresh_found key dep_fingerprints none = pure none
  fresh_found key dep_fingerprints (some entry) = do
    t ← now
    if is_expired entry t
        then pure none
        else if is_outdated entry dep_fingerprints
        then pure none
        else gets (λ s. if contains s.pending_invalidations key then none else some entry)

  unfoldable pub fresh_entry : String → Option (Dict String) → M env (Option (CacheEntry env.Value))
  unfolding now
  fresh_entry key dep_fingerprints = do
    quarantined ← gets (λ s. contains s.pending_invalidations key)
    if quarantined
        then pure none
        else do found ← lift env (env.store.get key); fresh_found key dep_fingerprints found

  abbrev pub serve : String → Bool → Option (CacheEntry env.Value) → M env (Option env.Value)
  serve key coalesced none = pure none
  serve key coalesced (some entry) = do
    touch_budget env key
    modify (record_hit coalesced)
    pure (some entry.value)

  -- `none` is `_NOT_SERVED`.
  unfoldable pub serve_if_fresh : String → Option (Dict String) → Bool → M env (Option env.Value)
  serve_if_fresh key dep_fingerprints coalesced = do
    entry ← fresh_entry key dep_fingerprints
    serve key coalesced entry
