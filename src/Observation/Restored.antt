-- ===== src/Observation/Restored.antt =====
-- src/cachau/decorator.py: what `profile` does to the keys that the store does not have.
use cachau.Control.{Env, State}
use cachau.Observation.Profiling.{
  Bound, measure, size_of_value, write_throwaway, remove_throwaway, profile, natural,
}
use cachau.Observation.Tidy.{
  Absent, Restores, Restores-order, Spared, IsTidy, lift-Restores, key-Restores, measure-Restores,
  Written, write-Written,
}
use cachau.Prelude.Exec.Keeps.{Keeps, Keeps-pure, Keeps-bind, Keeps-attempt}
use cachau.Prelude.Exec.{Result, ok, raise, pure, attempt, caught, continue, finally, ◌>>=◌}
use cachau.Prelude.{
  ℕ, zero, suc, String, Bool, true, false, Option, none, is_some, max_of, str_eq, eq_iff,
  Bool-cases, inl, inr, ◌≡◌, refl, sym, arith,
}
use cachau.Wrapper.{M, Fault, faulted, lift}
use mathlib.Core.Path.{subst}

module _ (env : Env) (bound : Bound env) (tidy : IsTidy env bound) where
  get-Restores : (key : String) → Keeps (Restores env) (lift env (env.store.get key))
  get-Restores key = lift-Restores env (env.store.get key) (tidy.get key)

  either_way :
      (t : State env.World) (r : Result env.Exn (Unit {0})) (w : env.World)
      → (caught {E = Fault env.Exn} (faulted r) pure (pure tt) (record t { world = w })).1.world ≡ w
  unfolding pure
  either_way t (ok u) w = refl
  either_way t (raise e) w = refl

  after_delete :
      (key : String) (t : State env.World)
      → (remove_throwaway env bound key true t).world ≡ (env.store.delete key t.world).1
  unfolding lift attempt
  after_delete key t =
      either_way t (env.store.delete key t.world).0 (env.store.delete key t.world).1

  -- After the copy is removed no key has come to the store.
  removed :
      (key : String) (s t : State env.World)
      → Spared env key s t
      → Restores env s (remove_throwaway env bound key true t)
  removed key s t h k g =
      subst (Absent env k) (sym (after_delete key t)) (elim (Bool-cases (str_eq k key)) [
        | inr other ↦ tidy.delete key k t.world (h k other g)
        | inl same ↦
            let f : k ≡ key = ground (arith, same, eq_iff k key) in
            subst (λ j. Absent env j (env.store.delete key t.world).1) (sym f)
              (tidy.deleted key t.world)
      ])

  cleaned :
      {A : Type 0} (key : String) (f : ℕ → M env A) (rounds : ℕ)
      → ((n : ℕ) → Keeps (Restores env) (f n))
      → (s : State env.World) (r : Result (Fault env.Exn) Bool) (t : State env.World)
      → Written env bound tidy key s r t
      → Restores env s
          (continue r
            (λ wrote.
              finally
                (measure env bound (lift env (env.store.get key)) rounds)
                (remove_throwaway env bound key wrote)
              >>= f)
            t).1
  unfolding ◌>>=◌ finally
  cleaned key f rounds kf s (raise e) t h = h
  cleaned key f rounds kf s (ok false) t h =
      let reads = measure-Restores env bound tidy (get-Restores key) rounds in
      go (measure env bound (lift env (env.store.get key)) rounds t).0
        (measure env bound (lift env (env.store.get key)) rounds t).1 (λ k g. reads.at t k (h k g))
    where
      go :
          (q : Result (Fault env.Exn) ℕ) (u : State env.World)
          → Restores env s u
          → Restores env s (continue q f u).1
      go (ok n) u g = λ k a. (kf n).at u k (g k a)
      go (raise e) u g = g
  cleaned key f rounds kf s (ok true) t h =
      let reads = measure-Restores env bound tidy (get-Restores key) rounds in
      go (measure env bound (lift env (env.store.get key)) rounds t).0
        (remove_throwaway env bound key true
          (measure env bound (lift env (env.store.get key)) rounds t).1)
        (removed key s (measure env bound (lift env (env.store.get key)) rounds t).1
          (λ k d g. reads.at t k (h k d g)))
    where
      go :
          (q : Result (Fault env.Exn) ℕ) (u : State env.World)
          → Restores env s u
          → Restores env s (continue q f u).1
      go (ok n) u g = λ k a. (kf n).at u k (g k a)
      go (raise e) u g = g

  size-Restores : (value : env.Value) → Keeps (Restores env) (size_of_value env bound value)
  unfolding size_of_value
  size-Restores value =
      Keeps-attempt (Restores-order env)
        (lift-Restores env (env.size_of value) (tidy.size_of value))
        (λ size. Keeps-pure (Restores-order env) (natural size))
        (Keeps-pure (Restores-order env) none)

  copy-Restores :
      {A : Type 0} (key : String) (value : env.Value) (size : Option ℕ) (existed : Bool)
      (f : ℕ → M env A) (rounds : ℕ)
      → ((n : ℕ) → Keeps (Restores env) (f n))
      → Keeps (Restores env) (
          write_throwaway env bound key value size existed >>= λ wrote.
          finally
            (measure env bound (lift env (env.store.get key)) rounds)
            (remove_throwaway env bound key wrote)
          >>= f)
  unfolding ◌>>=◌
  copy-Restores key value size existed f rounds kf = record {
    at = λ s.
        cleaned key f rounds kf s (write_throwaway env bound key value size existed s).0
          (write_throwaway env bound key value size existed s).1
          (write-Written env bound tidy key value size existed s);
  }

  profiled : (args : env.Args) (repeats : ℕ) → Keeps (Restores env) (profile env bound args repeats)
  unfolding profile
  profiled args zero = Keeps-pure (Restores-order env) none
  profiled args (suc rounds) =
      Keeps-bind (Restores-order env) (key-Restores env bound tidy args) λ key.
        Keeps-bind (Restores-order env) (lift-Restores env (env.func args) (tidy.func args))
          λ value.
            Keeps-bind (Restores-order env)
              (measure-Restores env bound tidy (lift-Restores env (env.func args) (tidy.func args))
                rounds)
              λ compute.
                Keeps-bind (Restores-order env)
                  (measure-Restores env bound tidy (key-Restores env bound tidy args)
                    (max_of rounds 19))
                  λ key_time. Keeps-bind (Restores-order env) (size-Restores value) λ size.
                    Keeps-bind (Restores-order env) (get-Restores key) λ found.
                      copy-Restores key value size (is_some found) _ (max_of rounds 19) λ read.
                        Keeps-bind (Restores-order env)
                          (lift-Restores env (bound.largest args) (tidy.largest args))
                          λ largest. Keeps-pure (Restores-order env) _

  -- No key that the store did not have before `profile` is in it afterwards, whether `profile` returns
  -- or raises: the throwaway copy is removed. It is for a store whose deletes succeed and whose writes
  -- touch their own key alone, and none where they raise, and for a function, clocks and dependencies
  -- that write nothing to the store.
  pub profile-Restores :
      (args : env.Args) (repeats : ℕ) (s : State env.World)
      → Restores env s (profile env bound args repeats s).1
  profile-Restores args repeats s = (profiled args repeats).at s
