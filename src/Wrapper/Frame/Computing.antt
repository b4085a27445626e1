-- ===== src/Wrapper/Frame/Computing.antt =====
-- The flights and the wrapper of src/cachau/decorator.py: a relation with a frame that allows calls,
-- commits and locks to be tallied is kept.
use cachau.Wrapper.Frame.Classifying.{run_and_time-Keeps, any-Keeps, classify_and_compute-Keeps}
use cachau.Backend.{CacheEntry}
use cachau.Control.{
  Env, State, process_coalesced_hits, stale_locks_broken, hits, miss_verification_failed,
  verifications, verification_failures, bump,
}
use cachau.Flight.{Slots}
use cachau.Interprocess.Keeps.{coordinate-Keeps, new_lock-Keeps, release-Keeps}
use cachau.Interprocess.{ProcessLock, Outcome, acquired, served, timeout, unavailable, release}
use cachau.Prelude.Dict.{Dict}
use cachau.Prelude.Exec.Keeps.{
  Keeps, Keeps-pure, Keeps-gets, Keeps-modify, Keeps-run, Keeps-bind, Keeps-finally, Keeps-if,
}
use cachau.Prelude.{ℕ, String, Bool, true, false, Option, none, some, refl}
use cachau.Wrapper.Action.{M, state_files}
use cachau.Wrapper.Call.{
  conclude, verify_found, verify_flight, is_selected, holding, or_compute, wrapper,
}
use cachau.Wrapper.Compute.{
  probe, join_process_flight, serve_coalesced, recheck, compute_joined, after_join, process_flight,
  compute_unserved, compute_flight,
}
use cachau.Wrapper.Frame.Committing.{safe_delete-Keeps, commit_result-Keeps}
use cachau.Wrapper.Frame.Defs.{
  Frame, AllowsCommit, AllowsCalls, lift-Keeps, ask-Keeps, count-Keeps, touch_budget-Keeps,
  forget_budget-Keeps, state_files-keep,
}
use cachau.Wrapper.Frame.Serving.{
  build_key-Keeps, current_dependencies-Keeps, fresh_entry-Keeps, serve_if_fresh-Keeps,
}

module _ (env : Env) {R : State env.World → State env.World → Type 0} (f : Frame R) where
  pub join_process_flight-Keeps :
      (lock : ProcessLock) (key : String) (d : Option (Dict String))
      → Keeps R (join_process_flight env lock key d)
  unfolding join_process_flight probe
  join_process_flight-Keeps lock key d = Keeps-bind f.order (Keeps-gets f.order _) λ bound.
      coordinate-Keeps (state_files-keep env f) _ env.fuel bound _ lock
        (Keeps-bind f.order (fresh_entry-Keeps env f key d) λ e. Keeps-pure f.order _)

  pub release_lock-Keeps :
      (lock : ProcessLock) (s : State env.World) → R s (release (state_files env) lock s).1
  release_lock-Keeps = release-Keeps (state_files-keep env f)

  pub is_selected-Keeps : Keeps R (is_selected env)
  unfolding is_selected
  is_selected-Keeps =
      Keeps-if _
        (Keeps-if _ (Keeps-pure f.order true)
          (Keeps-bind f.order (ask-Keeps env f env.random) λ draw. Keeps-pure f.order _))
        (Keeps-pure f.order false)

  module _ (c : AllowsCommit R) (a : AllowsCalls R) where
    serve_coalesced-Keeps :
        (key : String) (value : env.Value) → Keeps R (serve_coalesced env key value)
    unfolding serve_coalesced
    serve_coalesced-Keeps key value = Keeps-bind f.order (Keeps-modify _ (a.on_hit false)) λ _.
        Keeps-bind f.order (any-Keeps env f c a process_coalesced_hits)
          λ _. Keeps-bind f.order (touch_budget-Keeps env f key) λ _. Keeps-pure f.order value

    recheck-Keeps :
        (key : String) (args : env.Args) (d : Option (Dict String))
        (found : Option (CacheEntry env.Value))
        → Keeps R (recheck env key args d found)
    recheck-Keeps key args d none = classify_and_compute-Keeps env f c a key args d
    recheck-Keeps key args d (some entry) = serve_coalesced-Keeps key entry.value

    compute_joined-Keeps :
        (key : String) (args : env.Args) (d : Option (Dict String))
        → Keeps R (compute_joined env key args d)
    unfolding compute_joined
    compute_joined-Keeps key args d =
        Keeps-bind f.order (fresh_entry-Keeps env f key d) (recheck-Keeps key args d)

    after_join-Keeps :
        (o : Outcome env.Value) (lock : ProcessLock) (key : String) (args : env.Args)
        (d : Option (Dict String))
        → Keeps R (after_join env o lock key args d)
    after_join-Keeps (served value) lock key args d = serve_coalesced-Keeps key value
    after_join-Keeps timeout lock key args d =
        Keeps-bind f.order (any-Keeps env f c a _) λ _. compute_joined-Keeps key args d
    after_join-Keeps unavailable lock key args d =
        Keeps-bind f.order (any-Keeps env f c a _) λ _. compute_joined-Keeps key args d
    after_join-Keeps acquired lock key args d =
        Keeps-finally f.order _ (compute_joined-Keeps key args d) (release_lock-Keeps lock)

    process_flight-Keeps :
        (key : String) (args : env.Args) (d : Option (Dict String))
        → Keeps R (process_flight env key args d)
    unfolding process_flight
    process_flight-Keeps key args d =
        Keeps-bind f.order
          (Keeps-run _ (new_lock-Keeps (state_files-keep env f) (env.lock_path key)))
          λ lock. Keeps-bind f.order (join_process_flight-Keeps lock key d) λ joined.
            Keeps-bind f.order
              (Keeps-if _ (Keeps-pure f.order tt) (count-Keeps env f stale_locks_broken _ refl))
              λ _. after_join-Keeps _ _ key args d

    compute_unserved-Keeps :
        (key : String) (args : env.Args) (d : Option (Dict String)) (found : Option env.Value)
        → Keeps R (compute_unserved env key args d found)
    compute_unserved-Keeps key args d (some value) = Keeps-pure f.order value
    compute_unserved-Keeps key args d none =
        Keeps-if _ (process_flight-Keeps key args d)
          (classify_and_compute-Keeps env f c a key args d)

    compute_flight-Keeps :
        (key : String) (args : env.Args) (d : Option (Dict String))
        → Keeps R (compute_flight env key args d)
    unfolding compute_flight
    compute_flight-Keeps key args d =
        Keeps-bind f.order (serve_if_fresh-Keeps env f a key d true)
          (compute_unserved-Keeps key args d)

    conclude-Keeps :
        (m : Bool × Bool) (key : String) (cached : env.Value) (r : env.Value × ℕ × Bool)
        (d : Option (Dict String))
        → Keeps R (conclude env m key cached r d)
    unfolding bump
    conclude-Keeps (false, _) key cached r d =
        Keeps-bind f.order (any-Keeps env f c a _)
          λ _. Keeps-bind f.order (touch_budget-Keeps env f key) λ _. Keeps-pure f.order cached
    conclude-Keeps (true, true) key cached r d =
        Keeps-bind f.order
          (Keeps-modify _ (λ s. f.order.after (a.on_any hits s) (a.on_any verifications _)))
          λ _. Keeps-bind f.order (touch_budget-Keeps env f key) λ _. Keeps-pure f.order cached
    conclude-Keeps (true, false) key cached (value, elapsed, cold) d =
        Keeps-bind f.order
          (Keeps-modify _ (λ s. f.order.after (a.on_any verifications s) (
            f.order.after (a.on_any verification_failures _)
              (a.on_any miss_verification_failed _))))
          λ _. Keeps-bind f.order (lift-Keeps env f env.warn) λ _.
            Keeps-bind f.order (safe_delete-Keeps env f key) λ _.
              Keeps-bind f.order (forget_budget-Keeps env f key) λ _.
                Keeps-bind f.order (commit_result-Keeps env f c key value d elapsed cold)
                  λ _. Keeps-pure f.order value

    verify_found-Keeps :
        (key : String) (args : env.Args) (d : Option (Dict String))
        (found : Option (CacheEntry env.Value))
        → Keeps R (verify_found env key args d found)
    verify_found-Keeps key args d none = compute_flight-Keeps key args d
    verify_found-Keeps key args d (some entry) =
        Keeps-bind f.order (run_and_time-Keeps env f args) λ r. conclude-Keeps _ key entry.value r d

    pub locked-Keeps :
        (key : String) (args : env.Args) (d : Option (Dict String))
        → Keeps R (verify_flight env key args d) × Keeps R (compute_flight env key args d)
    unfolding verify_flight
    locked-Keeps key args d = (
      Keeps-bind f.order (fresh_entry-Keeps env f key d) (verify_found-Keeps key args d),
      compute_flight-Keeps key args d,
    )

    module _ (locks : (s : State env.World) (x : Slots) → R s (record s { slots = x })) where
      holding-Keeps :
          {A : Type 0} (key : String) {m : M env A} → Keeps R m → Keeps R (holding env key m)
      unfolding holding
      holding-Keeps key km =
          Keeps-bind f.order (Keeps-modify _ (λ s. locks s _))
            λ _. Keeps-finally f.order _ km (λ s. locks s _)

      or_compute-Keeps :
          (key : String) (args : env.Args) (d : Option (Dict String)) (found : Option env.Value)
          → Keeps R (or_compute env key args d found)
      or_compute-Keeps key args d (some value) = Keeps-pure f.order value
      or_compute-Keeps key args d none = holding-Keeps key (compute_flight-Keeps key args d)

      pub wrapper-Keeps : (args : env.Args) → Keeps R (wrapper env args)
      unfolding wrapper
      wrapper-Keeps args = Keeps-bind f.order (build_key-Keeps env f args) λ key.
          Keeps-bind f.order (current_dependencies-Keeps env f) λ d.
            Keeps-bind f.order is_selected-Keeps λ selected.
              Keeps-if selected (holding-Keeps key (locked-Keeps key args d).0) (
                Keeps-bind f.order (serve_if_fresh-Keeps env f a key d false)
                  (or_compute-Keeps key args d))
