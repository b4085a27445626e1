-- ===== src/Explanation.antt =====
-- src/cachau/explanation.py: the answer of `explain`, and what it derives from its fields.
use cachau.Prelude.Int.{ℤ, pos, negsuc}
use cachau.Prelude.{ℕ, ◌-◌, String, List, Option, none, some, leb, if◌then◌else◌}

-- `outcome`
pub data HitOrMiss : Type 0 where
  hit miss : HitOrMiss

-- `reason`
pub data Reason : Type 0 where
  found not_found expired invalidated dependency_changed evicted : Reason

pub record Explanation : Type 0 where
  pub outcome : HitOrMiss
  pub reason : Reason
  pub key : String
  pub namespace : String
  pub fingerprint : String
  pub checked_at : ℕ
  pub created_at : Option ℕ
  pub expires_at : Option ℕ
  pub size_bytes : Option ℕ
  pub changed_dependencies : Option (List String)
  pub dependency_diff : Option (List (String × Option String × Option String))
  pub write_errors : Option ℕ

-- The difference of two instants, which may be negative.
abbrev pub difference : ℕ → ℕ → ℤ
difference a b = if leb b a then pos (a - b) else negsuc (b - a - 1)

unfoldable pub age_seconds : Explanation → Option ℤ
age_seconds x = elim x.created_at [ none ↦ none | some t ↦ some (difference x.checked_at t) ]

unfoldable pub ttl_remaining_seconds : Explanation → Option ℕ
ttl_remaining_seconds x = elim x.expires_at [
  | none ↦ none
  | some t ↦ if leb t x.checked_at then none else some (t - x.checked_at)
]

abbrev pub since_expiry : Reason → ℕ → ℕ → Option ℤ
since_expiry expired checked_at t = some (difference checked_at t)
since_expiry _ checked_at t = none

unfoldable pub expired_seconds_ago : Explanation → Option ℤ
expired_seconds_ago x = elim x.expires_at [
  | none ↦ none
  | some t ↦ since_expiry x.reason x.checked_at t
]
