-- ===== src/Observation/Tidy.antt =====
-- src/cachau/decorator.py: what the steps of `profile` do to the keys that the store does not have.
use cachau.Backend.{CacheEntry}
use cachau.Control.{Env, State}
use cachau.Observation.Explain.{peek_now}
use cachau.Observation.Profiling.{Bound, measure, write_throwaway}
use cachau.Observation.Rounds.{measure-Keeps}
use cachau.Prelude.Exec.Keeps.{Keeps, IsPreorder, Keeps-pure, Keeps-bind}
use cachau.Prelude.Exec.{Result, ok, raise, pure, caught, continue, ◌>>=◌}
use cachau.Prelude.{
  ℕ, String, Bool, true, false, Option, none, str_eq, eq_iff, Bool-cases, inl, inr, ◌≡◌, refl, sym,
  arith,
}
use cachau.Wrapper.Frame.Serving.{fingerprint_dependencies-Keeps}
use cachau.Wrapper.{M, Fault, faulted, lift, ask, build_key, current_dependencies, new_entry}
use mathlib.Core.Path.{subst}
use cachau.Prelude.Dict.{Dict}

module _ (env : Env) where
  -- The store has nothing under the key.
  abbrev pub Absent : String → env.World → Type 0
  Absent k w = (env.store.get k w).0 ≡ ok none

  -- An operation writes no key.
  abbrev pub Spares : {A : Type 0} → (env.World → A × env.World) → Type 0
  Spares op = (k : String) (w : env.World) → Absent k w → Absent k (op w).1

  -- No key comes to the store.
  abbrev pub Restores : State env.World → State env.World → Type 0
  Restores s t = (k : String) → Absent k s.world → Absent k t.world

  pub Restores-order : IsPreorder Restores
  Restores-order = record { here = λ s k h. h; after = λ p q k h. q k (p k h) }

  -- None but the one.
  abbrev pub Spared : String → State env.World → State env.World → Type 0
  Spared key s t = (k : String) → str_eq k key ≡ false → Absent k s.world → Absent k t.world

  -- The function, the clocks and the reads write no key, a write that raises writes none, another
  -- writes its own, and a delete deletes.
  pub record IsTidy (bound : Bound env) : Type 0 where
    pub digest : (args : env.Args) → Spares (env.digest args)
    pub func : (args : env.Args) → Spares (env.func args)
    pub clock : Spares env.clock
    pub perf_counter : Spares env.perf_counter
    pub size_of : (value : env.Value) → Spares (env.size_of value)
    pub fingerprint_of : (label : String) → Spares (env.fingerprint_of label)
    pub largest : (args : env.Args) → Spares (bound.largest args)
    pub get : (key : String) → Spares (env.store.get key)
    pub delete : (key : String) → Spares (env.store.delete key)
    pub set_other :
        (k key : String) (e : CacheEntry env.Value) (w : env.World)
        → str_eq k key ≡ false
        → Absent k w
        → Absent k (env.store.set key e w).1
    pub set_failed :
        (key : String) (e : CacheEntry env.Value) (w : env.World) (x : env.Exn)
        → (env.store.set key e w).0 ≡ raise x
        → Absent key w
        → Absent key (env.store.set key e w).1
    pub deleted : (key : String) (w : env.World) → Absent key (env.store.delete key w).1

  pub lift-Restores :
      {A : Type 0} (op : env.World → Result env.Exn A × env.World)
      → Spares op
      → Keeps Restores (lift env op)
  unfolding lift
  lift-Restores op h = record { at = λ s k. h k s.world }

  pub ask-Restores :
      {A : Type 0} (op : env.World → A × env.World) → Spares op → Keeps Restores (ask env op)
  unfolding ask
  ask-Restores op h = record { at = λ s k. h k s.world }

  module _ (bound : Bound env) (tidy : IsTidy bound) where
    pub peek-Restores : Keeps Restores (peek_now env)
    unfolding peek_now
    peek-Restores = record { at = λ s k. tidy.clock k s.world }

    pub key-Restores : (args : env.Args) → Keeps Restores (build_key env args)
    unfolding build_key
    key-Restores args =
        Keeps-bind Restores-order (lift-Restores (env.digest args) (tidy.digest args))
          λ d. Keeps-pure Restores-order _

    pub current-Restores : Keeps Restores (current_dependencies env)
    unfolding current_dependencies
    current-Restores =
        fingerprint_dependencies-Keeps Restores-order
          (λ label. lift-Restores (env.fingerprint_of label) (tidy.fingerprint_of label))
          env.dependencies

    pub measure-Restores :
        {A : Type 0} {m : M env A}
        → Keeps Restores m
        → (n : ℕ) → Keeps Restores (measure env bound m n)
    measure-Restores km n =
        measure-Keeps env bound Restores-order (ask-Restores env.perf_counter tidy.perf_counter) km
          n

    -- Where the copy was written the key is excepted.
    abbrev pub Written :
        String → State env.World → Result (Fault env.Exn) Bool → State env.World → Type 0
    Written key s (ok true) t = Spared key s t
    Written key s (ok false) t = Restores s t
    Written key s (raise e) t = Restores s t

    spared : (key : String) (s t : State env.World) → Restores s t → Spared key s t
    spared key s t h k d = h k

    failed-Spares :
        (key : String) (e : CacheEntry env.Value) (w : env.World) (x : env.Exn)
        → (env.store.set key e w).0 ≡ raise x
        → (k : String) → Absent k w
        → Absent k (env.store.set key e w).1
    failed-Spares key e w x p k g = elim (Bool-cases (str_eq k key)) [
      | inr other ↦ tidy.set_other k key e w other g
      | inl same ↦
          let f : k ≡ key = ground (arith, same, eq_iff k key) in
          subst (λ j. Absent j (env.store.set key e w).1) (sym f)
            (tidy.set_failed key e w x p (subst (λ j. Absent j w) f g))
    ]

    set-Written :
        (key : String) (e : CacheEntry env.Value) (s t : State env.World)
        → (r : Result env.Exn (Unit {0})) (w : env.World) → (env.store.set key e t.world).0 ≡ r
        → (env.store.set key e t.world).1 ≡ w
        → Restores s t
        → Written key s
            (caught (faulted r) (λ _. pure true) (pure false) (record t { world = w })).0
            (caught (faulted r) (λ _. pure true) (pure false) (record t { world = w })).1
    unfolding pure
    set-Written key e s t (ok u) w p q h =
        λ k d g. subst (Absent k) q (tidy.set_other k key e t.world d (h k g))
    set-Written key e s t (raise x) w p q h =
        λ k g. subst (Absent k) q (failed-Spares key e t.world x p k (h k g))

    deps-Written :
        (key : String) (value : env.Value) (size : Option ℕ) (at_time : ℕ) (s t : State env.World)
        (r : Result (Fault env.Exn) (Option (Dict String)))
        → Restores s t
        → Written key s
            (caught
              (continue r
                (λ deps. lift env (env.store.set key (new_entry env value at_time size deps)))
                t).0
              (λ _. pure true)
              (pure false)
              (continue r
                (λ deps. lift env (env.store.set key (new_entry env value at_time size deps)))
                t).1).0
            (caught
              (continue r
                (λ deps. lift env (env.store.set key (new_entry env value at_time size deps)))
                t).0
              (λ _. pure true)
              (pure false)
              (continue r
                (λ deps. lift env (env.store.set key (new_entry env value at_time size deps)))
                t).1).1
    unfolding pure lift
    deps-Written key value size at_time s t (raise e) h = h
    deps-Written key value size at_time s t (ok deps) h =
        set-Written key (new_entry env value at_time size deps) s t _ _ refl refl h

    pub write-Written :
        (key : String) (value : env.Value) (size : Option ℕ) (existed : Bool) (s : State env.World)
        → Written key s
            (write_throwaway env bound key value size existed s).0
            (write_throwaway env bound key value size existed s).1
    unfolding write_throwaway ◌>>=◌ peek_now
    write-Written key value size true s = λ k g. g
    write-Written key value size false s =
        let t = (peek_now env s).1 in
        deps-Written key value size _ s (current_dependencies env t).1
          (current_dependencies env t).0 (λ k g. current-Restores.at t k (peek-Restores.at s k g))
