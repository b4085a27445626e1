-- ===== src/Wrapper/Committed.antt =====
-- src/cachau/decorator.py: a committed value is served by the next call.
use cachau.Backend.Laws.{StoreLaws}
use cachau.Control.{Env, State}
use cachau.Dependencies.{same_fingerprints}
use cachau.Prelude.Dict.{Dict}
use cachau.Prelude.Exec.{ok, ◌>>=◌}
use cachau.Prelude.{ℕ, ◌<◌, String, Bool, true, Option, some, ◌≡◌, refl}
use cachau.Wrapper.Action.{lift}
use cachau.Wrapper.Commit.{after_write, write, new_entry}
use cachau.Wrapper.Durable.{after_write-Keeps, after_write-unquarantined}
use cachau.Wrapper.Freshness.{instant, serve_if_fresh-Servable}
use cachau.Wrapper.Serve.{serve_if_fresh, is_declared}

module _ (env : Env) (laws : StoreLaws env.store) where
  -- A write that the store accepts goes on to the bookkeeping.
  write-after_write :
      (key : String) (value : env.Value) (at : ℕ) (size : Option ℕ) (d : Option (Dict String))
      (elapsed : ℕ) (cold : Bool) (s : State env.World)
      → (env.store.set key (new_entry env value at size d) s.world).0 ≡ ok tt
      → (write env key value at size d elapsed cold s).1
        ≡ (after_write env key size elapsed cold
            (record s { world = (env.store.set key (new_entry env value at size d) s.world).1 })).1
  unfolding write lift ◌>>=◌
  write-after_write key value at size d elapsed cold s h = rw h refl

  -- A value that a store with `StoreLaws` accepted is served afterwards, whatever was evicted for it and whether
  -- or not the key was quarantined before: as long as the clamped clock is before the expiry, and
  -- where dependencies are declared, to the fingerprints that it was written with.
  pub serve_if_fresh-write :
      (key : String) (value : env.Value) (at : ℕ) (size : Option ℕ) (d d' : Option (Dict String))
      (elapsed : ℕ) (cold coalesced : Bool) (s : State env.World)
      → (env.store.set key (new_entry env value at size d) s.world).0 ≡ ok tt
      → ((x : ℕ)
          → (new_entry env value at size d).expires_at ≡ some x
          → instant env key (write env key value at size d elapsed cold s).1 < x)
      → (is_declared env.dependencies ≡ true → same_fingerprints d d' ≡ true)
      → (serve_if_fresh env key d' coalesced (write env key value at size d elapsed cold s).1).0
        ≡ ok (some value)
  serve_if_fresh-write key value at size d d' elapsed cold coalesced s h before same =
      let entry = new_entry env value at size d in
      let w = record s { world = (env.store.set key entry s.world).1 } in
      let t = (write env key value at size d elapsed cold s).1 in
      let p = write-after_write key value at size d elapsed cold s h in
      (serve_if_fresh-Servable env key d' coalesced t value).1 (
        entry,
        record {
          found = rw p (
              (after_write-Keeps env laws key entry size elapsed cold).at w
                (laws.get_after_set key entry s.world h));
          unquarantined = rw p ((after_write-unquarantined env key size elapsed cold).at w);
          unexpired = before;
          matching = same;
        },
        refl,
      )
