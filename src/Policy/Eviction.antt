-- ===== src/Policy/Eviction.antt =====
-- The eviction loop of `LRUBudget.admit` (src/cachau/policy.py), against the shortest prefix of the
-- least recently used entries that makes room.
use cachau.Policy.Defs.{evict_oldest, less_size}
use cachau.Prelude.Dict.{Dict, lookup, remove, keys, IsDistinct, nil, cons, remove_absent}
use cachau.Prelude.{
  str_eq, ℕ, zero, suc, ◌+◌, ◌-◌, ◌≤◌, ◌<◌, String, [], ◌∷◌, ◌++◌, ◌≡◌, refl, some, arith, eq_iff,
  length, take, drop, inl, inr, Bool-cases, Option-cases,
}

-- The bytes that a list of entries takes.
abbrev pub sum_sizes : Dict ℕ → ℕ
sum_sizes [] = 0
sum_sizes ((k, size) ∷ d) = size + sum_sizes d

pub sum_sizes-append : (c d : Dict ℕ) → sum_sizes (c ++ d) ≡ sum_sizes c + sum_sizes d
sum_sizes-append [] d = omega arith
sum_sizes-append ((k, size) ∷ c) d = omega (arith, sum_sizes-append c d)

pub lookup-le-sum_sizes :
    (k : String) (d : Dict ℕ) (size : ℕ) → lookup k d ≡ some size → size ≤ sum_sizes d
unfolding lookup
lookup-le-sum_sizes k [] size h = cc
lookup-le-sum_sizes k ((j, s) ∷ d) size h = ground (arith, lookup-le-sum_sizes k d size)

-- Taking a key out takes its size off the sum.
pub sum_sizes-remove :
    (k : String) (d : Dict ℕ)
    → IsDistinct d
    → sum_sizes (remove k d) ≡ less_size (sum_sizes d) (lookup k d)
unfolding lookup remove
sum_sizes-remove k [] nil = refl
sum_sizes-remove k ((j, size) ∷ d) (cons h t) = elim (Bool-cases (str_eq j k)) [
  | inl e ↦
      let same : j ≡ k = (eq_iff j k).0 e in
      simp (e, remove_absent k d (rw same at h)) (omega arith)
  | inr e ↦ elim (Option-cases (lookup k d)) [
    | inl missing ↦ simp (e, sum_sizes-remove k d t, missing) (omega arith)
    | inr (s, found) ↦
        simp (e, sum_sizes-remove k d t, found) (omega (arith, lookup-le-sum_sizes k d s found))
  ]
]

module _ (max_bytes size : ℕ) where
  -- The loop keeps the running total equal to the bytes of what it keeps.
  pub evict-total :
      (total : ℕ) (d : Dict ℕ)
      → total ≡ sum_sizes d
      → (evict_oldest max_bytes size total d).total
        ≡ sum_sizes (evict_oldest max_bytes size total d).kept
  unfolding evict_oldest
  evict-total total [] h = h
  evict-total total ((k, s) ∷ d) h = ground (arith, evict-total (total - s) d)

  -- When the loop stops there is room for the new entry.
  pub evict-room :
      (total : ℕ) (d : Dict ℕ)
      → total ≡ sum_sizes d
      → size ≤ max_bytes
      → (evict_oldest max_bytes size total d).total + size ≤ max_bytes
  unfolding evict_oldest
  evict-room total [] h fit = omega arith
  evict-room total ((k, s) ∷ d) h fit = ground (arith, evict-room (total - s) d)

  pub evict-kept :
      (total : ℕ) (d : Dict ℕ)
      → (evict_oldest max_bytes size total d).kept
        ≡ drop (length (evict_oldest max_bytes size total d).evicted) d
  unfolding evict_oldest
  evict-kept total [] = refl
  evict-kept total ((k, s) ∷ d) = ground (arith, evict-kept (total - s) d)

  pub evict-evicted :
      (total : ℕ) (d : Dict ℕ)
      → (evict_oldest max_bytes size total d).evicted
        ≡ keys (take (length (evict_oldest max_bytes size total d).evicted) d)
  unfolding evict_oldest
  evict-evicted total [] = refl
  evict-evicted total ((k, s) ∷ d) = ground (arith, evict-evicted (total - s) d)

  -- No shorter prefix would have made room.
  pub evict_minimal :
      (total : ℕ) (d : Dict ℕ) (m : ℕ)
      → total ≡ sum_sizes d
      → m < length (evict_oldest max_bytes size total d).evicted
      → max_bytes < sum_sizes (drop m d) + size
  unfolding evict_oldest
  evict_minimal total [] m h lt = absurd (omega arith)
  evict_minimal total ((k, s) ∷ d) zero h lt = ground arith
  evict_minimal total ((k, s) ∷ d) (suc m) h lt = ground (arith, evict_minimal (total - s) d m)

  -- Without the evicted prefix, there is room.
  pub evict_makes_room :
      (total : ℕ) (d : Dict ℕ)
      → total ≡ sum_sizes d
      → size ≤ max_bytes
      → sum_sizes (drop (length (evict_oldest max_bytes size total d).evicted) d) + size ≤ max_bytes
  unfolding evict_oldest
  evict_makes_room total [] h fit = omega arith
  evict_makes_room total ((k, s) ∷ d) h fit = ground (arith, evict_makes_room (total - s) d)
