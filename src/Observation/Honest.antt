-- ===== src/Observation/Honest.antt =====
-- src/cachau/decorator.py: `explain` against what a call would do.
use cachau.Backend.Laws.{StoreLaws}
use cachau.Control.{
  Env, State, Tally, bump, miss_not_found, miss_expired, miss_invalidated, miss_dependency_changed,
}
use cachau.Dependencies.{fingerprint_all, fingerprint_dependencies}
use cachau.Explanation.{
  Explanation, hit, miss, Reason, found, not_found, expired, invalidated, dependency_changed,
  evicted,
}
use cachau.Observation.Explain.{explain_key, observe, peek_now}
use cachau.Prelude.Dict.{Dict, insert}
use cachau.Prelude.Exec.{Result, Exec, ok, raise, continue, ◌>>=◌}
use cachau.Prelude.{
  ap, ◌∙◌, ℕ, ◌+◌, String, List, [], ◌∷◌, Bool, true, false, Option, none, some, ◌≡◌, refl, arith,
}
use cachau.Wrapper.{
  Fault, faulted, lift, count, on_budget, touch_budget, forget_budget, now, current_dependencies,
  fresh_entry, serve_if_fresh, classify, safe_delete,
}

-- The tally that a miss of each reason goes to.
abbrev pub miss_tally : Reason → Tally
miss_tally found = miss_not_found
miss_tally not_found = miss_not_found
miss_tally evicted = miss_not_found
miss_tally expired = miss_expired
miss_tally invalidated = miss_invalidated
miss_tally dependency_changed = miss_dependency_changed

continue_alike :
    {E S A B : Type 0} (r : Result E A) (f : A → Exec E S B) (s t : S)
    → ((a : A) → (f a s).0 ≡ (f a t).0)
    → (continue r f s).0 ≡ (continue r f t).0
continue_alike (ok a) f s t h = h a
continue_alike (raise x) f s t h = refl

module _ (env : Env) where
  fingerprint_all-world :
      (labels : List String) (done : Dict String) (s t : State env.World)
      → s.world ≡ t.world
      → (fingerprint_all (λ label. lift env (env.fingerprint_of label)) labels done s).0
        ≡ (fingerprint_all (λ label. lift env (env.fingerprint_of label)) labels done t).0
  unfolding fingerprint_all ◌>>=◌ lift
  fingerprint_all-world [] done s t e = refl
  fingerprint_all-world (label ∷ labels) done s t e = rw e (
      continue_alike (faulted (env.fingerprint_of label t.world).0) _ _ _
        (λ f. fingerprint_all-world labels (insert label f done) _ _ refl))

  -- Fingerprints depend on the outside world alone.
  current_dependencies-world :
      (s t : State env.World)
      → s.world ≡ t.world
      → (current_dependencies env s).0 ≡ (current_dependencies env t).0
  unfolding current_dependencies fingerprint_dependencies ◌>>=◌
  current_dependencies-world s t e = by_labels env.dependencies
    where
      by_labels :
          (labels : List String)
          → (fingerprint_dependencies (λ l. lift env (env.fingerprint_of l)) labels s).0
            ≡ (fingerprint_dependencies (λ l. lift env (env.fingerprint_of l)) labels t).0
      by_labels [] = refl
      by_labels (label ∷ labels) = ground (arith, fingerprint_all-world (label ∷ labels) [] s t e)

  -- The clock stands: it shows one instant, and reading it changes nothing.
  pub record Still (instant : ℕ) : Type 0 where
    pub clock_at : (w : env.World) → env.clock w ≡ (instant, w)

  abbrev pub is_hit : Result (Fault env.Exn) Explanation → Bool
  is_hit (ok x) = elim x.outcome [ hit ↦ true | miss ↦ false ]
  is_hit (raise e) = false

  abbrev pub is_served : Result (Fault env.Exn) (Option env.Value) → Bool
  is_served (ok (some v)) = true
  is_served (ok none) = false
  is_served (raise e) = false

  module _ (laws : StoreLaws env.store) {instant : ℕ} (still : Still instant) where
    current_after :
        (d : Option (Dict String)) (s : State env.World)
        → (current_dependencies env s).0 ≡ ok d
        → (current_dependencies env (record s { world = (env.clock s.world).1 })).0 ≡ ok d
    current_after d s h =
        current_dependencies-world _ s (ap (λ r. r.1) (still.clock_at s.world)) ∙ h

    -- Over a store with `StoreLaws`, while the clock stands and the dependencies can be read,
    -- `explain` announces a hit exactly where a call is served from the store.
    pub explain_key-serve_if_fresh :
        (key : String) (d : Option (Dict String)) (s : State env.World)
        → (current_dependencies env s).0 ≡ ok d
        → is_hit (explain_key env key s).0 ≡ is_served (serve_if_fresh env key d false s).0
    unfolding explain_key observe peek_now now serve_if_fresh fresh_entry lift touch_budget ◌>>=◌
    explain_key-serve_if_fresh key d s h = ground (
      arith,
      current_after d s h,
      laws.get_is_peek key s.world,
      still.clock_at s.world,
      still.clock_at (env.store.get key s.world).1,
    )

    -- Over a store with `StoreLaws`, while the clock stands, a miss that `explain` announces is
    -- tallied, by the call that finds it, under the reason that `explain` gave.
    pub explain_key-classify :
        (key : String) (s : State env.World) (x : Explanation)
        → (explain_key env key s).0 ≡ ok x
        → x.outcome ≡ miss
        → (classify env key s).1.tallies (miss_tally x.reason) ≡ s.tallies (miss_tally x.reason) + 1
    unfolding explain_key observe peek_now now classify safe_delete forget_budget on_budget count
        bump lift ◌>>=◌
    explain_key-classify key s x h m = ground (
      arith,
      laws.get_is_peek key s.world,
      still.clock_at s.world,
      still.clock_at (env.store.get key s.world).1,
      still.clock_at (env.store.delete key (env.store.get key s.world).1).1,
    )
