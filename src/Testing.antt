-- ===== src/Testing.antt =====
-- src/cachau/testing.py: the assertions about a decorated function.
pub mod Sampling
use cachau.Backend.{CacheEntry}
use cachau.Control.{Env}
use cachau.Explanation.{Explanation, HitOrMiss, hit, miss, Reason}
use cachau.Observation.Explain.{observe, explain}
use cachau.Prelude.Exec.{Result, pure, ◌>>=◌, ◌>>◌}
use cachau.Prelude.{Bool, true, false, Option, none, some, if◌then◌else◌}
use cachau.Wrapper.{M, lift, build_key, values_match, wrapper}

-- How `assert_cache_faithful` ends: it returns, or raises one of its `AssertionError`s.
pub data Certificate : Type 0 where
  certified : Certificate
  nothing_cached : Certificate
  disappeared : Certificate
  not_comparable : Certificate
  unfaithful : Certificate

-- What `_values_match` says.
abbrev pub verdict_of : Bool × Bool → Certificate
verdict_of (false, matches) = not_comparable
verdict_of (true, true) = certified
verdict_of (true, false) = unfaithful

-- How `assert_invalidates` ends.
pub data Invalidation : Type 0 where
  invalidated_by : Explanation → Invalidation
  nothing_to_invalidate : Invalidation
  still_hit : Invalidation
  wrong_reason : Reason → Invalidation

abbrev pub same_reason : Reason → Reason → Bool
same_reason Reason.found Reason.found = true
same_reason Reason.not_found Reason.not_found = true
same_reason Reason.expired Reason.expired = true
same_reason Reason.invalidated Reason.invalidated = true
same_reason Reason.dependency_changed Reason.dependency_changed = true
same_reason Reason.evicted Reason.evicted = true
same_reason _ _ = false

abbrev pub judge_reason : Option Reason → Explanation → Invalidation
judge_reason none x = invalidated_by x
judge_reason (some reason) x =
    if same_reason x.reason reason then invalidated_by x else wrong_reason x.reason

abbrev pub judge : HitOrMiss → Option Reason → Explanation → Invalidation
judge hit reason x = still_hit
judge miss reason x = judge_reason reason x

module _ (env : Env) where
  -- `if explanation.outcome != "HIT"`: a call, and another look.
  abbrev pub primed : env.Args → HitOrMiss → Explanation → M env Explanation
  primed args hit x = pure x
  primed args miss x = do wrapper env args; explain env args

  abbrev pub compare_entry : env.Args → Option (CacheEntry env.Value) → M env Certificate
  compare_entry args none = pure disappeared
  compare_entry args (some entry) = do
    fresh ← lift env (env.func args)
    pure (verdict_of (values_match env entry.value fresh))

  abbrev pub certify : env.Args → HitOrMiss → M env Certificate
  certify args miss = pure nothing_cached
  certify args hit = do
    key ← build_key env args
    entry ← observe env (env.store.peek key)
    compare_entry args entry

  unfoldable pub assert_cache_faithful : env.Args → M env Certificate
  unfolding wrapper explain values_match
  assert_cache_faithful args = do
    x ← explain env args
    y ← primed args x.outcome x
    certify args y.outcome

  abbrev pub perturbed :
      (env.World → Result env.Exn (Unit {0}) × env.World)
      → env.Args
      → Option Reason
      → HitOrMiss
      → M env Invalidation
  perturbed perturb args reason miss = pure nothing_to_invalidate
  perturbed perturb args reason hit = do
    lift env perturb
    z ← explain env args
    pure (judge z.outcome reason z)

  unfoldable pub assert_invalidates :
      (env.World → Result env.Exn (Unit {0}) × env.World)
      → env.Args
      → Option Reason
      → M env Invalidation
  unfolding wrapper explain
  assert_invalidates perturb args reason = do
    x ← explain env args
    y ← primed args x.outcome x
    perturbed perturb args reason y.outcome
