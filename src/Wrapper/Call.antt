-- ===== src/Wrapper/Call.antt =====
-- src/cachau/decorator.py: `_values_match`, `_verify_flight` and `wrapper`.
use cachau.Backend.{CacheEntry}
use cachau.Control.{
  Env, certain, add_to, hits, verifications, verification_failures, miss_verification_failed,
}
use cachau.Flight.{enter, leave}
use cachau.Prelude.Dict.{Dict}
use cachau.Prelude.Exec.{pure, modify, finally, ◌>>=◌, ◌>>◌}
use cachau.Prelude.{
  ℕ, String, Bool, true, false, Option, none, some, str_eq, ltb, leb, if◌then◌else◌,
}
use cachau.Wrapper.Action.{M, lift, ask, count, touch_budget, forget_budget}
use cachau.Wrapper.Commit.{safe_delete, commit_result}
use cachau.Wrapper.Compute.{run_and_time, compute_flight}
use cachau.Wrapper.Serve.{build_key, current_dependencies, fresh_entry, serve_if_fresh}

-- Both sides came back, and whether they are equal.
abbrev pub both_equal : Option String → Option String → Option Bool
both_equal (some a) (some b) = some (str_eq a b)
both_equal none b = none
both_equal (some a) none = none

abbrev pub or_pickled : Option Bool → Option Bool → Bool × Bool
or_pickled (some equal) pickled = (true, equal)
or_pickled none (some equal) = (true, equal)
or_pickled none none = (false, false)

module _ (env : Env) where
  -- `(compared, equal)`
  unfoldable pub values_match : env.Value → env.Value → Bool × Bool
  values_match cached fresh =
      or_pickled (both_equal (env.digest_value cached) (env.digest_value fresh))
        (both_equal (env.pickle_dumps cached) (env.pickle_dumps fresh))

  -- The outcome of the comparison with the entry's value.
  abbrev pub conclude :
      Bool × Bool
      → String
      → env.Value
      → env.Value × ℕ × Bool
      → Option (Dict String)
      → M env env.Value
  conclude (false, _) key cached computed dep_fingerprints = do
    count env hits 1
    touch_budget env key
    pure cached
  conclude (true, true) key cached computed dep_fingerprints = do
    modify (λ s. record s { tallies = add_to verifications 1 (add_to hits 1 s.tallies) })
    touch_budget env key
    pure cached
  conclude (true, false) key cached (value, compute_elapsed, is_cold_jit) dep_fingerprints = do
    modify (λ s. record s {
      tallies =
          add_to miss_verification_failed 1
            (add_to verification_failures 1 (add_to verifications 1 s.tallies));
    })
    lift env env.warn
    safe_delete env key
    forget_budget env key
    commit_result env key value dep_fingerprints compute_elapsed is_cold_jit
    pure value

  abbrev pub verify_found :
      String → env.Args → Option (Dict String) → Option (CacheEntry env.Value) → M env env.Value
  verify_found key args dep_fingerprints none = compute_flight env key args dep_fingerprints
  verify_found key args dep_fingerprints (some entry) = do
    computed ← run_and_time env args
    conclude (values_match entry.value computed.0) key entry.value computed dep_fingerprints

  unfoldable pub verify_flight : String → env.Args → Option (Dict String) → M env env.Value
  unfolding values_match
  verify_flight key args dep_fingerprints = do
    entry ← fresh_entry env key dep_fingerprints
    verify_found key args dep_fingerprints entry

  -- Whether `verify=` selects this call.
  unfoldable pub is_selected : M env Bool
  is_selected =
      if ltb 0 env.verify_probability
      then (if leb certain env.verify_probability
          then pure true
          else (do draw ← ask env env.random; pure (ltb draw env.verify_probability)))
      else pure false

  -- `with flights.holding(key)`
  unfoldable pub holding : {A : Type 0} → String → M env A → M env A
  holding key m = do
    modify (λ s. record s { slots = enter key s.slots })
    finally m (λ s. record s { slots = leave key s.slots })

  abbrev pub or_compute :
      String → env.Args → Option (Dict String) → Option env.Value → M env env.Value
  or_compute key args dep_fingerprints (some value) = pure value
  or_compute key args dep_fingerprints none =
      holding key (compute_flight env key args dep_fingerprints)

  unfoldable pub wrapper : env.Args → M env env.Value
  wrapper args = do
    key ← build_key env args
    dep_fingerprints ← current_dependencies env
    selected ← is_selected
    if selected then holding key (verify_flight key args dep_fingerprints) else (do
      found ← serve_if_fresh env key dep_fingerprints false
      or_compute key args dep_fingerprints found)
