-- ===== src/Wrapper/Accounting/Flights.antt =====
-- Hits and misses of src/cachau/decorator.py: every call is one of them.
use cachau.Wrapper.Accounting.Misses.{
  hit-Counts, event-Counts, classify_and_compute-Counts, serve_if_fresh-Counts,
}
use cachau.Backend.{CacheEntry}
use cachau.Control.{Env, State, hits}
use cachau.Interprocess.Keeps.{new_lock-Keeps}
use cachau.Interprocess.{ProcessLock, Outcome, acquired, served, timeout, unavailable}
use cachau.Prelude.Dict.{Dict}
use cachau.Prelude.Exec.Counts.{
  Same, Counted, Counts, once, Follows, quiet, counting, Counts-modify, Counts-if, Counts-finally,
  Counts-after, Counts-bind,
}
use cachau.Prelude.Exec.Keeps.{Keeps-pure, Keeps-modify, Keeps-run, Keeps-bind, Keeps-if}
use cachau.Prelude.{ℕ, String, Bool, true, false, Option, none, some, is_some, refl, arith}
use cachau.Wrapper.Action.{M}
use cachau.Wrapper.Call.{conclude, verify_found, verify_flight, holding, or_compute, wrapper}
use cachau.Wrapper.Compute.{
  serve_coalesced, recheck, compute_joined, after_join, process_flight, compute_unserved,
  compute_flight,
}
use cachau.Wrapper.Frame.Committing.{safe_delete-Keeps, commit_result-Keeps}
use cachau.Wrapper.Frame.Classifying.{run_and_time-Keeps}
use cachau.Wrapper.Frame.Computing.{
  join_process_flight-Keeps, release_lock-Keeps, is_selected-Keeps,
}
use cachau.Wrapper.Frame.{
  Frame, lift-Keeps, count-Keeps, touch_budget-Keeps, forget_budget-Keeps, state_files-keep,
}
use cachau.Wrapper.Frame.Serving.{build_key-Keeps, current_dependencies-Keeps, fresh_entry-Keeps}
use cachau.Wrapper.Accounting.{calls, calls_frame, calls_commit}

module _ (env : Env) where
  same : Frame (Same {S = State env.World} calls)
  same = calls_frame

  serve_coalesced-Counts :
      (key : String) (value : env.Value) → Counts calls once (serve_coalesced env key value)
  unfolding serve_coalesced
  serve_coalesced-Counts key value = Counts-bind (hit-Counts env false) λ _. quiet (
      Keeps-bind same.order (count-Keeps env same _ 1 refl) λ _.
        Keeps-bind same.order (touch_budget-Keeps env same key) λ _. Keeps-pure same.order value)

  recheck-Counts :
      (key : String) (args : env.Args) (d : Option (Dict String))
      (found : Option (CacheEntry env.Value))
      → Counts calls once (recheck env key args d found)
  recheck-Counts key args d none = classify_and_compute-Counts env key args d
  recheck-Counts key args d (some entry) = serve_coalesced-Counts key entry.value

  compute_joined-Counts :
      (key : String) (args : env.Args) (d : Option (Dict String))
      → Counts calls once (compute_joined env key args d)
  unfolding compute_joined
  compute_joined-Counts key args d =
      Counts-after (fresh_entry-Keeps env same key d) (recheck-Counts key args d)

  after_join-Counts :
      (o : Outcome env.Value) (lock : ProcessLock) (key : String) (args : env.Args)
      (d : Option (Dict String))
      → Counts calls once (after_join env o lock key args d)
  after_join-Counts (served value) lock key args d = serve_coalesced-Counts key value
  after_join-Counts timeout lock key args d =
      Counts-after (count-Keeps env same _ 1 refl) λ _. compute_joined-Counts key args d
  after_join-Counts unavailable lock key args d =
      Counts-after (count-Keeps env same _ 1 refl) λ _. compute_joined-Counts key args d
  after_join-Counts acquired lock key args d =
      Counts-finally _ (compute_joined-Counts key args d) (release_lock-Keeps env same lock)

  process_flight-Counts :
      (key : String) (args : env.Args) (d : Option (Dict String))
      → Counts calls once (process_flight env key args d)
  unfolding process_flight
  process_flight-Counts key args d =
      Counts-after (Keeps-run _ (new_lock-Keeps (state_files-keep env same) (env.lock_path key)))
        λ lock. Counts-after (join_process_flight-Keeps env same lock key d) λ joined.
          Counts-after (Keeps-if _ (Keeps-pure same.order tt) (count-Keeps env same _ _ refl))
            λ _. after_join-Counts _ _ key args d

  compute_unserved-Follows :
      (key : String) (args : env.Args) (d : Option (Dict String)) (found : Option env.Value)
      → Follows calls (compute_unserved env key args d found) (is_some found)
  compute_unserved-Follows key args d (some value) = quiet (Keeps-pure same.order value)
  compute_unserved-Follows key args d none =
      counting (
        Counts-if _ (process_flight-Counts key args d) (classify_and_compute-Counts env key args d))

  compute_flight-Counts :
      (key : String) (args : env.Args) (d : Option (Dict String))
      → Counts calls once (compute_flight env key args d)
  unfolding compute_flight
  compute_flight-Counts key args d =
      Counts-bind (serve_if_fresh-Counts env key d true) (compute_unserved-Follows key args d)

  conclude-Counts :
      (m : Bool × Bool) (key : String) (cached : env.Value) (r : env.Value × ℕ × Bool)
      (d : Option (Dict String))
      → Counts calls once (conclude env m key cached r d)
  conclude-Counts (false, _) key cached r d =
      Counts-bind (event-Counts env hits (λ t. omega arith)) λ _.
        quiet (
          Keeps-bind same.order (touch_budget-Keeps env same key) λ _. Keeps-pure same.order cached)
  conclude-Counts (true, true) key cached r d =
      Counts-bind (Counts-modify calls _ (λ s. omega arith)) λ _.
        quiet (
          Keeps-bind same.order (touch_budget-Keeps env same key) λ _. Keeps-pure same.order cached)
  conclude-Counts (true, false) key cached (value, elapsed, cold) d =
      Counts-bind (Counts-modify calls _ (λ s. omega arith)) λ _. quiet (
        Keeps-bind same.order (lift-Keeps env same env.warn) λ _.
          Keeps-bind same.order (safe_delete-Keeps env same key) λ _.
            Keeps-bind same.order (forget_budget-Keeps env same key) λ _.
              Keeps-bind same.order
                (commit_result-Keeps env same calls_commit key value d elapsed cold)
                λ _. Keeps-pure same.order value)

  verify_found-Counts :
      (key : String) (args : env.Args) (d : Option (Dict String))
      (found : Option (CacheEntry env.Value))
      → Counts calls once (verify_found env key args d found)
  verify_found-Counts key args d none = compute_flight-Counts key args d
  verify_found-Counts key args d (some entry) =
      Counts-after (run_and_time-Keeps env same args) λ r. conclude-Counts _ key entry.value r d

  verify_flight-Counts :
      (key : String) (args : env.Args) (d : Option (Dict String))
      → Counts calls once (verify_flight env key args d)
  unfolding verify_flight
  verify_flight-Counts key args d =
      Counts-after (fresh_entry-Keeps env same key d) (verify_found-Counts key args d)

  holding-Counts :
      {A : Type 0} (key : String) {m : M env A}
      → Counts calls once m
      → Counts calls once (holding env key m)
  unfolding holding
  holding-Counts key cm =
      Counts-after (Keeps-modify _ (λ s. refl)) λ _. Counts-finally _ cm (λ s. refl)

  or_compute-Follows :
      (key : String) (args : env.Args) (d : Option (Dict String)) (found : Option env.Value)
      → Follows calls (or_compute env key args d found) (is_some found)
  or_compute-Follows key args d (some value) = quiet (Keeps-pure same.order value)
  or_compute-Follows key args d none =
      counting (holding-Counts key (compute_flight-Counts key args d))

  wrapper-Counts : (args : env.Args) → Counts calls once (wrapper env args)
  unfolding wrapper
  wrapper-Counts args = Counts-after (build_key-Keeps env same args) λ key.
      Counts-after (current_dependencies-Keeps env same) λ d.
        Counts-after (is_selected-Keeps env same) λ selected.
          Counts-if selected (holding-Counts key (verify_flight-Counts key args d))
            (Counts-bind (serve_if_fresh-Counts env key d false) (or_compute-Follows key args d))

-- Whatever the store, the function, the clock and other processes do: a call that returns adds
-- exactly one to the sum of the hits and of the five kinds of misses, and a call that raises adds
-- one or nothing.
pub wrapper-calls :
    (env : Env) (args : env.Args) (s : State env.World)
    → Counted calls once s (wrapper env args s).0 (wrapper env args s).1
wrapper-calls env args s = (wrapper-Counts env args).at s
