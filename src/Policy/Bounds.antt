-- ===== src/Policy/Bounds.antt =====
-- The invariant of `LRUBudget` (src/cachau/policy.py).
use cachau.Policy.Defs.{LruBudget, new_budget, touch, forget, fits, admit, reset, move_to_end}
use cachau.Policy.Eviction.{
  lookup-le-sum_sizes, sum_sizes, sum_sizes-append, sum_sizes-remove, evict-total, evict-room,
  evict-kept,
}
use cachau.Prelude.Dict.{
  Dict, lookup, remove, IsDistinct, nil, lookup-remove, lookup-drop, remove-IsDistinct,
  snoc-IsDistinct, drop-IsDistinct,
}
use cachau.Prelude.{
  sym, ◌∙◌, ℕ, ◌≤◌, String, ◌≡◌, refl, none, arith, eq_refl, true, inl, inr, Option-cases, leb→le,
}

-- The running total is the sum of the sizes, no key is twice there, and the budget is not passed.
pub record IsValid (b : LruBudget) : Type 0 where
  pub counted : b.total ≡ sum_sizes b.sizes
  pub distinct : IsDistinct b.sizes
  pub bounded : b.total ≤ b.max_bytes

pub new_budget-IsValid : (max_bytes : ℕ) → IsValid (new_budget max_bytes)
unfolding new_budget
new_budget-IsValid max_bytes = record { counted = refl; distinct = nil; bounded = omega arith }

lookup-remove_self : (k : String) (d : Dict ℕ) → lookup k (remove k d) ≡ none
lookup-remove_self k d = simp (lookup-remove, eq_refl)

-- Moving a key to the end keeps the bytes, and no key comes twice.
move_to_end-sum :
    (k : String) (d : Dict ℕ)
    → IsDistinct d
    → (sum_sizes (move_to_end k (lookup k d) d) ≡ sum_sizes d)
      × IsDistinct (move_to_end k (lookup k d) d)
move_to_end-sum k d t = elim (Option-cases (lookup k d)) [
  | inl missing ↦ rw missing (refl, t)
  | inr (size, found) ↦ rw found (
    rw (sum_sizes-append, sum_sizes-remove k d t, found)
        (omega (arith, lookup-le-sum_sizes k d size found)),
    snoc-IsDistinct k size (remove-IsDistinct k t) (lookup-remove_self k d),
  )
]

pub forget-IsValid : {b : LruBudget} (k : String) → IsValid b → IsValid (forget b k)
unfolding forget
forget-IsValid {b} k v = record {
  counted = rw (sum_sizes-remove k b.sizes v.distinct, v.counted);
  distinct = remove-IsDistinct k v.distinct;
  bounded = ground (arith, v.bounded);
}

pub touch-IsValid : {b : LruBudget} (k : String) → IsValid b → IsValid (touch b k)
unfolding touch
touch-IsValid {b} k v = record {
  counted = v.counted ∙ sym (move_to_end-sum k b.sizes v.distinct).0;
  distinct = (move_to_end-sum k b.sizes v.distinct).1;
  bounded = v.bounded;
}

pub reset-IsValid : (b : LruBudget) → IsValid (reset b)
unfolding reset
reset-IsValid b = record { counted = refl; distinct = nil; bounded = omega arith }

-- An entry that fits is admitted within the budget.
pub admit-IsValid :
    {b : LruBudget} (k : String) (size : ℕ)
    → IsValid b
    → fits b size ≡ true
    → IsValid (admit b k size).0
unfolding admit forget fits
admit-IsValid {b} k size v fit = record {
  counted =
      rw sum_sizes-append
        (omega (arith, evict-total b.max_bytes size c.total c.sizes valid.counted));
  distinct =
      snoc-IsDistinct k size (rw evict-kept (drop-IsDistinct _ valid.distinct))
        (rw evict-kept (lookup-drop _ k c.sizes (lookup-remove_self k b.sizes)));
  bounded = evict-room b.max_bytes size c.total c.sizes valid.counted (leb→le size b.max_bytes fit);
}
  where
    c : LruBudget
    c = forget b k

    valid : IsValid c
    valid = forget-IsValid k v
