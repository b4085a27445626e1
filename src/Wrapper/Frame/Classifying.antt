-- ===== src/Wrapper/Frame/Classifying.antt =====
-- `_run_and_time`, the naming of a miss and `_classify_and_compute` of src/cachau/decorator.py: a
-- relation with a frame is kept.
use cachau.Backend.{CacheEntry}
use cachau.Control.{
  Env, State, Tally, delete_errors, cold_compute_seconds, total_compute_seconds, compute_count,
  bump, record_compute,
}
use cachau.Prelude.Dict.{Dict}
use cachau.Prelude.Exec.Keeps.{
  Keeps, Keeps-pure, Keeps-gets, Keeps-modify, Keeps-bind, Keeps-attempt, Keeps-if,
}
use cachau.Prelude.Exec.{modify}
use cachau.Prelude.{ℕ, ◌-◌, String, Option, none, some, refl}
use cachau.Wrapper.Action.{count}
use cachau.Wrapper.Compute.{run_and_time, classify_found, classify, classify_and_compute}
use cachau.Wrapper.Frame.Committing.{safe_delete-Keeps, commit_result-Keeps}
use cachau.Wrapper.Frame.Defs.{
  Frame, AllowsCommit, AllowsCalls, lift-Keeps, ask-Keeps, count-Keeps, forget_budget-Keeps,
}
use cachau.Wrapper.Frame.Serving.{now-Keeps}

module _ (env : Env) {R : State env.World → State env.World → Type 0} (f : Frame R) where
  record_compute-Keeps : (elapsed : ℕ) (s : State env.World) → R s (record_compute elapsed s)
  unfolding record_compute bump
  record_compute-Keeps elapsed s =
      f.order.after (f.on_tally total_compute_seconds elapsed s refl)
        (f.on_tally compute_count 1 (bump total_compute_seconds elapsed s) refl)

  pub run_and_time-Keeps : (args : env.Args) → Keeps R (run_and_time env args)
  unfolding run_and_time
  run_and_time-Keeps args = Keeps-bind f.order (Keeps-gets f.order _) λ before.
      Keeps-bind f.order (ask-Keeps env f env.perf_counter) λ started.
        Keeps-bind f.order (lift-Keeps env f (env.func args)) λ value.
          Keeps-bind f.order (ask-Keeps env f env.perf_counter) λ finished.
            Keeps-bind f.order (Keeps-modify _ (record_compute-Keeps (finished - started))) λ _.
              Keeps-bind f.order (Keeps-gets f.order _) λ cold.
                Keeps-bind f.order
                  (Keeps-if cold (count-Keeps env f cold_compute_seconds _ refl)
                    (Keeps-pure f.order tt))
                  λ _. Keeps-pure f.order _

  module _ (c : AllowsCommit R) (a : AllowsCalls R) where
    pub any-Keeps : (name : Tally) → Keeps R (count env name 1)
    unfolding count modify
    any-Keeps name = record { at = a.on_any name }

    classify_found-Keeps :
        (key : String) (found : Option (CacheEntry env.Value))
        → Keeps R (classify_found env key found)
    classify_found-Keeps key none =
        Keeps-bind f.order (Keeps-gets f.order _)
          λ marked. Keeps-bind f.order (Keeps-modify _ (λ s. f.on_marks s _ _ _ _)) λ _. any-Keeps _
    classify_found-Keeps key (some entry) = Keeps-bind f.order (safe_delete-Keeps env f key) λ _.
        Keeps-bind f.order (forget_budget-Keeps env f key)
          λ _. Keeps-bind f.order (now-Keeps env f) λ t. any-Keeps _

    classify-Keeps : (key : String) → Keeps R (classify env key)
    unfolding classify
    classify-Keeps key = Keeps-bind f.order (Keeps-gets f.order _) λ q.
        Keeps-if q
          (Keeps-bind f.order
            (Keeps-attempt f.order (lift-Keeps env f _)
              (λ _. Keeps-modify _ (λ s. f.on_marks s _ _ _ _))
              (count-Keeps env f delete_errors 1 refl))
            λ _. Keeps-bind f.order (forget_budget-Keeps env f key) λ _. any-Keeps _)
          (Keeps-bind f.order (lift-Keeps env f (env.store.get key)) (classify_found-Keeps key))

    pub classify_and_compute-Keeps :
        (key : String) (args : env.Args) (d : Option (Dict String))
        → Keeps R (classify_and_compute env key args d)
    unfolding classify_and_compute
    classify_and_compute-Keeps key args d = Keeps-bind f.order (classify-Keeps key) λ _.
        Keeps-bind f.order (run_and_time-Keeps args) λ r.
          Keeps-bind f.order (commit_result-Keeps env f c key _ d _ _) λ _. Keeps-pure f.order _
