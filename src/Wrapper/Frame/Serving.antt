-- ===== src/Wrapper/Frame/Serving.antt =====
-- The functions of src/cachau/decorator.py that read: a relation with a frame is kept.
use cachau.Backend.{CacheEntry, is_expired}
use cachau.Control.{Env, State, record_hit}
use cachau.Dependencies.{fingerprint_all, fingerprint_dependencies}
use cachau.Prelude.Dict.{Dict, insert}
use cachau.Prelude.Exec.Keeps.{
  Keeps, IsPreorder, Keeps-pure, Keeps-gets, Keeps-modify, Keeps-bind, Keeps-if,
}
use cachau.Prelude.Exec.{Exec}
use cachau.Prelude.{String, List, [], ◌∷◌, Bool, Option, none, some}
use cachau.Wrapper.Frame.Defs.{Frame, AllowsCalls, lift-Keeps, touch_budget-Keeps}
use cachau.Wrapper.Serve.{
  now, build_key, current_dependencies, fresh_found, fresh_entry, serve, serve_if_fresh,
  is_outdated,
}

fingerprint_all-Keeps :
    {E S : Type 0} {R : S → S → Type 0} (o : IsPreorder R) {fingerprint : String → Exec E S String}
    → ((label : String) → Keeps R (fingerprint label))
    → (labels : List String) (done : Dict String)
    → Keeps R (fingerprint_all fingerprint labels done)
unfolding fingerprint_all
fingerprint_all-Keeps o k [] done = Keeps-pure o done
fingerprint_all-Keeps o k (label ∷ labels) done =
    Keeps-bind o (k label) λ f. fingerprint_all-Keeps o k labels (insert label f done)

pub fingerprint_dependencies-Keeps :
    {E S : Type 0} {R : S → S → Type 0} (o : IsPreorder R) {fingerprint : String → Exec E S String}
    → ((label : String) → Keeps R (fingerprint label))
    → (labels : List String) → Keeps R (fingerprint_dependencies fingerprint labels)
unfolding fingerprint_dependencies
fingerprint_dependencies-Keeps o k [] = Keeps-pure o none
fingerprint_dependencies-Keeps o k (label ∷ labels) =
    Keeps-bind o (fingerprint_all-Keeps o k (label ∷ labels) []) λ d. Keeps-pure o (some d)

module _ (env : Env) {R : State env.World → State env.World → Type 0} (f : Frame R) where
  pub now-Keeps : Keeps R (now env)
  unfolding now
  now-Keeps = record { at = λ s. f.on_clock s (env.clock s.world).0 (env.clock s.world).1 }

  pub build_key-Keeps : (args : env.Args) → Keeps R (build_key env args)
  unfolding build_key
  build_key-Keeps args =
      Keeps-bind f.order (lift-Keeps env f (env.digest args)) λ d. Keeps-pure f.order _

  pub current_dependencies-Keeps : Keeps R (current_dependencies env)
  unfolding current_dependencies
  current_dependencies-Keeps =
      fingerprint_dependencies-Keeps f.order (λ label. lift-Keeps env f (env.fingerprint_of label))
        env.dependencies

  fresh_found-Keeps :
      (key : String) (d : Option (Dict String)) (found : Option (CacheEntry env.Value))
      → Keeps R (fresh_found env key d found)
  fresh_found-Keeps key d none = Keeps-pure f.order none
  fresh_found-Keeps key d (some entry) = Keeps-bind f.order now-Keeps λ t.
      Keeps-if (is_expired entry t) (Keeps-pure f.order none)
        (Keeps-if (is_outdated env entry d) (Keeps-pure f.order none) (Keeps-gets f.order _))

  pub fresh_entry-Keeps :
      (key : String) (d : Option (Dict String)) → Keeps R (fresh_entry env key d)
  unfolding fresh_entry
  fresh_entry-Keeps key d = Keeps-bind f.order (Keeps-gets f.order _) λ q.
      Keeps-if q (Keeps-pure f.order none)
        (Keeps-bind f.order (lift-Keeps env f (env.store.get key)) (fresh_found-Keeps key d))

  module _ (c : AllowsCalls R) where
    serve-Keeps :
        (key : String) (coalesced : Bool) (entry : Option (CacheEntry env.Value))
        → Keeps R (serve env key coalesced entry)
    serve-Keeps key coalesced none = Keeps-pure f.order none
    serve-Keeps key coalesced (some entry) = Keeps-bind f.order (touch_budget-Keeps env f key) λ _.
        Keeps-bind f.order (Keeps-modify (record_hit coalesced) (c.on_hit coalesced))
          λ _. Keeps-pure f.order (some entry.value)

    pub serve_if_fresh-Keeps :
        (key : String) (d : Option (Dict String)) (coalesced : Bool)
        → Keeps R (serve_if_fresh env key d coalesced)
    unfolding serve_if_fresh
    serve_if_fresh-Keeps key d coalesced =
        Keeps-bind f.order (fresh_entry-Keeps key d) (serve-Keeps key coalesced)
