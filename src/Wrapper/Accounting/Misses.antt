-- ===== src/Wrapper/Accounting/Misses.antt =====
-- `_classify_and_compute` and `serve_if_fresh` of src/cachau/decorator.py: one miss, and one hit.
use cachau.Backend.{CacheEntry}
use cachau.Control.{
  Env, State, Tally, Tallies, hits, miss_not_found, miss_expired, miss_invalidated,
  miss_dependency_changed, add_to, bump, record_hit,
}
use cachau.Prelude.Dict.{Dict}
use cachau.Prelude.Exec.Counts.{
  Same, Counts, once, quiet, Counts-modify, Counts-if, Counts-after, Counts-bind,
}
use cachau.Prelude.Exec.Keeps.{Keeps-pure, Keeps-gets, Keeps-modify, Keeps-bind, Keeps-attempt}
use cachau.Prelude.Exec.{modify, ◌>>=◌}
use cachau.Prelude.{
  ◌+◌, String, Bool, true, false, Option, none, some, is_some, ◌≡◌, refl, arith, if◌then◌else◌,
}
use cachau.Wrapper.Action.{Fault, on_budget, touch_budget, count}
use cachau.Wrapper.Compute.{classify_found, classify, classify_and_compute}
use cachau.Wrapper.Frame.Committing.{safe_delete-Keeps, commit_result-Keeps}
use cachau.Wrapper.Frame.Classifying.{run_and_time-Keeps}
use cachau.Wrapper.Frame.{Frame, lift-Keeps, count-Keeps, forget_budget-Keeps}
use cachau.Wrapper.Frame.Serving.{now-Keeps, fresh_entry-Keeps}
use cachau.Wrapper.Serve.{serve, serve_if_fresh}
use cachau.Wrapper.Accounting.{misses_of, calls, calls_frame, calls_commit, calls-record_hit}

module _ (env : Env) where
  same : Frame (Same {S = State env.World} calls)
  same = calls_frame

  pub hit-Counts :
      (coalesced : Bool)
      → Counts {E = Fault env.Exn} {S = State env.World} calls once (modify (record_hit coalesced))
  hit-Counts coalesced = Counts-modify calls (record_hit coalesced) (calls-record_hit coalesced)

  pub event-Counts :
      (name : Tally)
      → ((t : Tallies)
          → add_to name 1 t hits + misses_of (add_to name 1 t) ≡ t hits + misses_of t + 1)
      → Counts calls once (count env name 1)
  unfolding count bump
  event-Counts name h = Counts-modify calls (bump name 1) (λ s. h s.tallies)

  marked-Counts :
      (marked : Bool)
      → Counts calls once (count env (if marked then miss_invalidated else miss_not_found) 1)
  marked-Counts true = event-Counts miss_invalidated (λ t. omega arith)
  marked-Counts false = event-Counts miss_not_found (λ t. omega arith)

  stale-Counts :
      (expired : Bool)
      → Counts calls once (count env (if expired then miss_expired else miss_dependency_changed) 1)
  stale-Counts true = event-Counts miss_expired (λ t. omega arith)
  stale-Counts false = event-Counts miss_dependency_changed (λ t. omega arith)

  classify_found-Counts :
      (key : String) (found : Option (CacheEntry env.Value))
      → Counts calls once (classify_found env key found)
  classify_found-Counts key none =
      Counts-after (Keeps-gets same.order _)
        λ marked. Counts-after (Keeps-modify _ (λ s. refl)) λ _. marked-Counts marked
  classify_found-Counts key (some entry) = Counts-after (safe_delete-Keeps env same key) λ _.
      Counts-after (forget_budget-Keeps env same key)
        λ _. Counts-after (now-Keeps env same) λ t. stale-Counts _

  classify-Counts : (key : String) → Counts calls once (classify env key)
  unfolding classify
  classify-Counts key = Counts-after (Keeps-gets same.order _) λ q.
      Counts-if q
        (Counts-after
          (Keeps-attempt same.order (lift-Keeps env same _) (λ _. Keeps-modify _ (λ s. refl))
            (count-Keeps env same _ 1 refl))
          λ _.
            Counts-after (forget_budget-Keeps env same key)
              λ _. event-Counts miss_invalidated (λ t. omega arith))
        (Counts-after (lift-Keeps env same (env.store.get key)) (classify_found-Counts key))

  pub classify_and_compute-Counts :
      (key : String) (args : env.Args) (d : Option (Dict String))
      → Counts calls once (classify_and_compute env key args d)
  unfolding classify_and_compute
  classify_and_compute-Counts key args d = Counts-bind (classify-Counts key) λ _. quiet (
      Keeps-bind same.order (run_and_time-Keeps env same args) λ r.
        Keeps-bind same.order (commit_result-Keeps env same calls_commit key _ d _ _)
          λ _. Keeps-pure same.order _)

  serve-Counts :
      (key : String) (coalesced : Bool) (entry : Option (CacheEntry env.Value))
      → Counts calls is_some (serve env key coalesced entry)
  unfolding ◌>>=◌ touch_budget on_budget
  serve-Counts key coalesced none = record { at = λ s. omega arith }
  serve-Counts key coalesced (some entry) = record {
    at = λ s. calls-record_hit coalesced (on_budget _ s);
  }

  pub serve_if_fresh-Counts :
      (key : String) (d : Option (Dict String)) (coalesced : Bool)
      → Counts calls is_some (serve_if_fresh env key d coalesced)
  unfolding serve_if_fresh
  serve_if_fresh-Counts key d coalesced =
      Counts-after (fresh_entry-Keeps env same key d) (serve-Counts key coalesced)
