-- ===== src/Settings/Estimate/Parts.antt =====
-- src/cachau/sizes.py: what an object counts for itself and what is held in it, said by how it answers.
use cachau.Fingerprint.Objects.{has}
use cachau.Prelude.{
  ℕ, ◌+◌, List, [], ◌∷◌, true, Option, none, some, ◌≡◌, ◌≢◌, ◌⊎◌, refl, arith, map, All, Bool-cases,
  inl, inr, ◌==◌,
}
use cachau.Settings.Estimate.{
  Sizeable, Contents, mapping, items, dataclass_fields, plain, walked_pairs, walked_contents,
}

-- A method that is not there, or whose call raises.
abbrev pub IsSilent : Option (Option ℕ) → Type 0
IsSilent answer = (n : ℕ) → answer ≢ some (some n)

-- An object whose contents count: it does not report a size by any of the three ways.
pub record IsContainer (o : Sizeable) : Type 0 where
  pub no_usage : IsSilent o.memory_usage
  pub no_estimate : IsSilent o.estimated_size
  pub no_bytes : o.nbytes ≡ none

-- What an object counts for itself.
pub data Counts (o : Sizeable) : ℕ → Type 0 where
  reported_usage : {n : ℕ} → o.memory_usage ≡ some (some n) → Counts o n
  estimate :
      {n : ℕ}
      → IsSilent o.memory_usage
      → o.estimated_size ≡ some (some n)
      → Counts o (n + o.getsizeof)
  bytes :
      {n : ℕ}
      → IsSilent o.memory_usage
      → IsSilent o.estimated_size
      → o.nbytes ≡ some n
      → Counts o (n + o.getsizeof)
  own_size : IsContainer o → Counts o o.getsizeof

-- A key or an item of one of the pairs.
pub data InPairs : List (ℕ × ℕ) → ℕ → Type 0 where
  key : {k v : ℕ} {pairs : List (ℕ × ℕ)} → InPairs ((k, v) ∷ pairs) k
  item : {k v : ℕ} {pairs : List (ℕ × ℕ)} → InPairs ((k, v) ∷ pairs) v
  later : {k v j : ℕ} {pairs : List (ℕ × ℕ)} → InPairs pairs j → InPairs ((k, v) ∷ pairs) j

-- The value of one of the fields.
pub data InFields : List (Option ℕ) → ℕ → Type 0 where
  field : {j : ℕ} {fields : List (Option ℕ)} → InFields (some j ∷ fields) j
  further :
      {f : Option ℕ} {j : ℕ} {fields : List (Option ℕ)}
      → InFields fields j
      → InFields (f ∷ fields) j

pub data IsPart : Contents → ℕ → Type 0 where
  in_dict : {pairs : List (ℕ × ℕ)} {j : ℕ} → InPairs pairs j → IsPart (mapping pairs) j
  in_sequence : {objects : List ℕ} {j : ℕ} → has objects j ≡ true → IsPart (items objects) j
  in_dataclass :
      {fields : List (Option ℕ)} {j : ℕ} → InFields fields j → IsPart (dataclass_fields fields) j

-- Every field of a dataclass is set.
abbrev pub IsFilled : Contents → Type 0
IsFilled (dataclass_fields fields) = All (λ f. f ≢ none) fields
IsFilled _ = Unit

-- What is there of a list of fields.
abbrev pub present : List (Option ℕ) → List ℕ
present [] = []
present (none ∷ fields) = present fields
present (some j ∷ fields) = j ∷ present fields

has_cases : (x j : ℕ) (xs : List ℕ) → has (x ∷ xs) j ≡ true → (x ≡ j) ⊎ (has xs j ≡ true)
has_cases x j xs h = elim (Bool-cases (x == j)) [
  | inl same ↦ inl (ground (arith, same))
  | inr other ↦ inr (ground (arith, other, h))
]

InPairs-has :
    {pairs : List (ℕ × ℕ)} {j : ℕ} → InPairs pairs j → has (present (walked_pairs pairs)) j ≡ true
InPairs-has key = ground arith
InPairs-has item = ground arith
InPairs-has (later p) = ground (arith, InPairs-has p)

has-InPairs :
    (pairs : List (ℕ × ℕ)) (j : ℕ) → has (present (walked_pairs pairs)) j ≡ true → InPairs pairs j
has-InPairs [] j h = absurd (cc)
has-InPairs ((k, v) ∷ pairs) j h = elim (has_cases k j (v ∷ present (walked_pairs pairs)) h) [
  | inl e ↦ rw (← e) key
  | inr rest ↦ elim (has_cases v j (present (walked_pairs pairs)) rest) [
    | inl e ↦ rw (← e) item
    | inr more ↦ later (has-InPairs pairs j more)
  ]
]

InFields-has :
    {fields : List (Option ℕ)} {j : ℕ} → InFields fields j → has (present fields) j ≡ true
InFields-has field = ground arith
InFields-has (further {f = none} p) = InFields-has p
InFields-has (further {f = some f} p) = ground (arith, InFields-has p)

has-InFields :
    (fields : List (Option ℕ)) (j : ℕ) → has (present fields) j ≡ true → InFields fields j
has-InFields [] j h = absurd (cc)
has-InFields (none ∷ fields) j h = further (has-InFields fields j h)
has-InFields (some k ∷ fields) j h = elim (has_cases k j (present fields) h) [
  | inl e ↦ rw (← e) field
  | inr rest ↦ further (has-InFields fields j rest)
]

present-map : (objects : List ℕ) → present (map some objects) ≡ objects
present-map [] = refl
present-map (j ∷ objects) = rw (present-map objects) refl

pub IsPart-has :
    {contents : Contents} {j : ℕ}
    → IsPart contents j
    → has (present (walked_contents contents)) j ≡ true
IsPart-has (in_dict p) = InPairs-has p
IsPart-has (in_sequence {objects = objects} h) = rw (present-map objects) h
IsPart-has (in_dataclass p) = InFields-has p

pub has-IsPart :
    (contents : Contents) (j : ℕ)
    → has (present (walked_contents contents)) j ≡ true
    → IsPart contents j
has-IsPart (mapping pairs) j h = in_dict (has-InPairs pairs j h)
has-IsPart (items objects) j h = in_sequence (rw (present-map objects) at h)
has-IsPart (dataclass_fields fields) j h = in_dataclass (has-InFields fields j h)
has-IsPart plain j h = absurd (cc)
