-- ===== src/Testing/Sampling.antt =====
-- src/cachau/testing.py: the assertions on an entry that is there already.
use cachau.Backend.{CacheEntry}
use cachau.Control.{Env, State}
use cachau.Explanation.{Explanation, HitOrMiss, hit, miss, Reason}
use cachau.Observation.Explain.{explain}
use cachau.Observation.Purity.{
  Observed, Observed-order, lift-Keeps, observe-Keeps, build_key-Keeps, explain-Keeps,
}
use cachau.Prelude.Exec.Keeps.{Keeps, Keeps-pure, Keeps-bind}
use cachau.Prelude.Exec.Yields.{bind_ok}
use cachau.Prelude.Exec.{Result, ok, ◌>>=◌}
use cachau.Prelude.{Option, none, some, ◌≡◌, sym}
use cachau.Wrapper.{M}
use mathlib.Core.Path.{subst}
use cachau.Testing.{
  primed, compare_entry, certify, perturbed, assert_cache_faithful, assert_invalidates,
}

module _ (env : Env) where
  compare_entry-Keeps :
      (args : env.Args) (entry : Option (CacheEntry env.Value))
      → Keeps Observed (compare_entry env args entry)
  compare_entry-Keeps args none = Keeps-pure Observed-order _
  compare_entry-Keeps args (some entry) =
      Keeps-bind Observed-order (lift-Keeps env (env.func args))
        λ fresh. Keeps-pure Observed-order _

  certify-Keeps :
      (args : env.Args) (outcome : HitOrMiss) → Keeps Observed (certify env args outcome)
  certify-Keeps args miss = Keeps-pure Observed-order _
  certify-Keeps args hit = Keeps-bind Observed-order (build_key-Keeps env args) λ key.
      Keeps-bind Observed-order (observe-Keeps env (env.store.peek key))
        λ entry. compare_entry-Keeps args entry

  perturbed-Keeps :
      (perturb : env.World → Result env.Exn (Unit {0}) × env.World) (args : env.Args)
      (reason : Option Reason) (outcome : HitOrMiss)
      → Keeps Observed (perturbed env perturb args reason outcome)
  perturbed-Keeps perturb args reason miss = Keeps-pure Observed-order _
  perturbed-Keeps perturb args reason hit =
      Keeps-bind Observed-order (lift-Keeps env perturb)
        λ u. Keeps-bind Observed-order (explain-Keeps env args) λ z. Keeps-pure Observed-order _

  primed-Keeps :
      (args : env.Args) (outcome : HitOrMiss) (x : Explanation)
      → outcome ≡ hit
      → Keeps Observed (primed env args outcome x)
  primed-Keeps args hit x e = Keeps-pure Observed-order x
  primed-Keeps args miss x e = cc

  -- After an explanation that is known, the rest of an action counts.
  explained-Observed :
      {A : Type 0} (args : env.Args) (f : Explanation → M env A) (s : State env.World)
      (x : Explanation)
      → (explain env args s).0 ≡ ok x
      → Keeps Observed (f x)
      → Observed s ((explain env args >>= f) s).1
  explained-Observed args f s x h k =
      let after =
        Observed-order.after {s = s} ((explain-Keeps env args).at s)
          (k.at (explain env args s).1) in
      subst (λ p. Observed s p.1) (sym (bind_ok (explain env args) f s x h)) after

  -- On an entry that `explain` announces as a hit, the assertions of the testing module leave every
  -- counter, marker, lock and budget as it was, whatever they find: nothing but the outside world
  -- may differ.
  pub assertions-Observed :
      (perturb : env.World → Result env.Exn (Unit {0}) × env.World) (args : env.Args)
      (reason : Option Reason) (s : State env.World) (x : Explanation)
      → (explain env args s).0 ≡ ok x
      → x.outcome ≡ hit
      → Observed s (assert_cache_faithful env args s).1
        × Observed s (assert_invalidates env perturb args reason s).1
  unfolding assert_cache_faithful assert_invalidates
  assertions-Observed perturb args reason s x h e = (
    explained-Observed args _ s x h (
        Keeps-bind Observed-order (primed-Keeps args x.outcome x e)
          λ y. certify-Keeps args y.outcome),
    explained-Observed args _ s x h (
        Keeps-bind Observed-order (primed-Keeps args x.outcome x e)
          λ y. perturbed-Keeps perturb args reason y.outcome),
  )
