-- ===== src/Policy/Admission.antt =====
-- What `LRUBudget.admit` (src/cachau/policy.py) evicts and what it keeps.
use cachau.Policy.Bounds.{
  IsValid, new_budget-IsValid, touch-IsValid, forget-IsValid, admit-IsValid, reset-IsValid,
}
use cachau.Policy.Defs
use cachau.Policy.Defs.{LruBudget, new_budget, fits}
use cachau.Policy.Eviction.{sum_sizes, evict-kept, evict-evicted, evict_minimal, evict_makes_room}
use cachau.Prelude.Dict.{remove, keys}
use cachau.Prelude.{
  ℕ, ◌+◌, ◌<◌, String, List, [], ◌∷◌, ◌++◌, ◌≡◌, refl, if◌then◌else◌, length, take, drop, inl, inr,
  Bool-cases, leb, leb→le, arith, ◌≤◌, ◌⊎◌,
}

-- `admit` evicts the least recently used entries other than its key, in order, keeps all others
-- in order, and puts its key last; what is kept has room for the new entry, unless the entry alone is
-- larger than the budget; and no shorter run of evictions would have made room.
pub admit_shortest_prefix :
    (b : LruBudget) (k : String) (size : ℕ)
    → IsValid b
    → let n = length (Defs.admit b k size).1 in
      ((Defs.admit b k size).1 ≡ keys (take n (remove k b.sizes)))
      × ((Defs.admit b k size).0.sizes ≡ drop n (remove k b.sizes) ++ (k, size) ∷ [])
      × ((sum_sizes (drop n (remove k b.sizes)) + size ≤ b.max_bytes) ⊎ (b.max_bytes < size))
      × ((m : ℕ) → m < n → b.max_bytes < sum_sizes (drop m (remove k b.sizes)) + size)
unfolding Defs.admit Defs.forget
admit_shortest_prefix b k size v = (
  evict-evicted b.max_bytes size _ _,
  rw evict-kept refl,
  elim (Bool-cases (leb size b.max_bytes)) [
    | inl fit ↦ inl (
        evict_makes_room b.max_bytes size _ _ (forget-IsValid k v).counted
          (leb→le size b.max_bytes fit))
    | inr big ↦ inr (ground (arith, big))
  ],
  λ m lt. evict_minimal b.max_bytes size _ _ m (forget-IsValid k v).counted lt,
)

-- The calls that the wrapper makes. It asks `fits` before it admits.
pub data BudgetCall : Type 0 where
  touch forget : String → BudgetCall
  admit : String → ℕ → BudgetCall
  reset : BudgetCall

unfoldable pub perform : LruBudget → BudgetCall → LruBudget
perform b (touch k) = Defs.touch b k
perform b (forget k) = Defs.forget b k
perform b (admit k size) = if fits b size then (Defs.admit b k size).0 else b
perform b reset = Defs.reset b

unfoldable pub perform_all : LruBudget → List BudgetCall → LruBudget
perform_all b [] = b
perform_all b (c ∷ calls) = perform_all (perform b c) calls

perform-IsValid : {b : LruBudget} (c : BudgetCall) → IsValid b → IsValid (perform b c)
unfolding perform
perform-IsValid (touch k) v = touch-IsValid k v
perform-IsValid (forget k) v = forget-IsValid k v
perform-IsValid {b} (admit k size) v = elim (Bool-cases (fits b size)) [
  | inl fit ↦ rw fit (admit-IsValid k size v fit)
  | inr big ↦ rw big v
]
perform-IsValid reset v = reset-IsValid _

perform_all-IsValid :
    {b : LruBudget} (calls : List BudgetCall) → IsValid b → IsValid (perform_all b calls)
unfolding perform_all
perform_all-IsValid [] v = v
perform_all-IsValid {b = b} (c ∷ calls) v =
    perform_all-IsValid {b = perform b c} calls (perform-IsValid c v)

-- From a new budget, after any calls, the running total is the sum of the sizes, no key is twice
-- there, and the total does not pass the budget.
pub new_budget-perform_all-IsValid :
    (max_bytes : ℕ) (calls : List BudgetCall) → IsValid (perform_all (new_budget max_bytes) calls)
new_budget-perform_all-IsValid max_bytes calls =
    perform_all-IsValid calls (new_budget-IsValid max_bytes)
