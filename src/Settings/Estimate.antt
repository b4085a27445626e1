-- ===== src/Settings/Estimate.antt =====
-- src/cachau/sizes.py: `estimate_size` and `_walk`. A heap of objects stands for Python's: an object is
-- known by its identity, a natural number, and sizes are natural numbers.
pub mod Parts
pub mod Answers
pub mod Walked
pub mod Counted
use cachau.Fingerprint.Objects.{has}
use cachau.Prelude.Exec.{Result, ok, raise}
use cachau.Prelude.{map, ℕ, zero, suc, ◌+◌, List, [], ◌∷◌, Option, none, some, if◌then◌else◌}

-- What an object holds: the pairs of a dict, the items of a list, tuple or set in the order of
-- iteration, or the fields of a dataclass, `none` for one that is not set, at which `getattr` raises.
pub data Contents : Type 0 where
  mapping : List (ℕ × ℕ) → Contents
  items : List ℕ → Contents
  dataclass_fields : List (Option ℕ) → Contents
  plain : Contents

-- `memory_usage` and `estimated_size` are `none` where there is no such method, and `some none` where
-- its call raises an `Exception`; `nbytes` is none unless it is an integer and no Boolean.
-- Asking for these and for `sys.getsizeof` raises nothing else.
pub record Sizeable : Type 0 where
  pub memory_usage : Option (Option ℕ)
  pub estimated_size : Option (Option ℕ)
  pub nbytes : Option ℕ
  pub getsizeof : ℕ
  pub contents : Contents

-- What a walk raises: where calls are too deep, and at a field that is not set.
pub data WalkError : Type 0 where
  recursion_error : WalkError
  attribute_error : WalkError

abbrev pub walked_pairs : List (ℕ × ℕ) → List (Option ℕ)
walked_pairs [] = []
walked_pairs ((key, item) ∷ pairs) = some key ∷ some item ∷ walked_pairs pairs

-- The objects that are walked, in their order.
abbrev pub walked_contents : Contents → List (Option ℕ)
walked_contents (mapping pairs) = walked_pairs pairs
walked_contents (items objects) = map some objects
walked_contents (dataclass_fields fields) = fields
walked_contents plain = []

abbrev pub Reported : Type 0
Reported = ℕ × List (Option ℕ)

-- What an object counts for itself, with the objects that are walked: the branches after the first
-- test, from the last to the first.
abbrev pub by_nbytes : Option ℕ → ℕ → Contents → Reported
by_nbytes (some n) base contents = (n + base, [])
by_nbytes none base contents = (base, walked_contents contents)

abbrev pub by_estimate : Option (Option ℕ) → Option ℕ → ℕ → Contents → Reported
by_estimate (some (some n)) nbytes base contents = (n + base, [])
by_estimate (some none) nbytes base contents = by_nbytes nbytes base contents
by_estimate none nbytes base contents = by_nbytes nbytes base contents

abbrev pub by_usage : Option (Option ℕ) → Option (Option ℕ) → Option ℕ → ℕ → Contents → Reported
by_usage (some (some n)) estimated nbytes base contents = (n, [])
by_usage (some none) estimated nbytes base contents = by_estimate estimated nbytes base contents
by_usage none estimated nbytes base contents = by_estimate estimated nbytes base contents

unfoldable pub report : Sizeable → Reported
report o = by_usage o.memory_usage o.estimated_size o.nbytes o.getsizeof o.contents

abbrev pub Walk : Type 0
Walk = Result WalkError (ℕ × List ℕ)

-- A sum of walks with one set `seen`, from left to right.
abbrev pub then_add : ℕ → Walk → Walk
then_add n (raise e) = raise e
then_add n (ok (m, seen)) = ok (n + m, seen)

unfoldable pub walk_all : (ℕ → List ℕ → Walk) → List (Option ℕ) → List ℕ → Walk
walk_all self [] seen = ok (0, seen)
walk_all self (none ∷ xs) seen = raise attribute_error
walk_all self (some x ∷ xs) seen = elim (self x seen) [
  | raise e ↦ raise e
  | ok (n, now_seen) ↦ then_add n (walk_all self xs now_seen)
]

module _ (heap : ℕ → Sizeable) where
  -- The size with what is seen afterwards. The fuel is the depth of calls that Python allows.
  unfoldable pub walk : ℕ → ℕ → List ℕ → Walk
  unfolding report walk_all
  walk zero value seen = raise recursion_error
  walk (suc fuel) value seen =
      let (size, objects) = report (heap value) in
      let rest = then_add size (walk_all (walk fuel) objects (value ∷ seen)) in
      if has seen value then ok (0, seen) else rest

  abbrev pub size_only : Walk → Result WalkError ℕ
  size_only (raise e) = raise e
  size_only (ok (size, seen)) = ok size

  unfoldable pub estimate_size : ℕ → ℕ → Result WalkError ℕ
  unfolding walk
  estimate_size depth value = size_only (walk depth value [])
