-- ===== src/Policy/Examples.antt =====
-- Runs of `LRUBudget`, and the theorems about it at concrete budgets.
use cachau.Policy.Defs
use cachau.Policy.Defs.{LruBudget, new_budget}
use cachau.Policy.Eviction.{sum_sizes}
use cachau.Policy.Bounds.{IsValid}
use cachau.Policy.Admission.{
  BudgetCall, admit, touch, perform, perform_all, admit_shortest_prefix,
  new_budget-perform_all-IsValid,
}
use cachau.Prelude.Dict.{lookup, remove, keys}
use cachau.Prelude.{ℕ, ◌+◌, ◌<◌, ◌≤◌, ◌⊎◌, List, [], ◌∷◌, ◌++◌, ◌≡◌, refl, length, take, drop}

abbrev calls : List BudgetCall
calls = admit "a" 40 ∷ admit "b" 30 ∷ touch "a" ∷ []

abbrev full : LruBudget
full = perform_all (new_budget 100) calls

full_sizes : full.sizes ≡ ("b", 30) ∷ ("a", 40) ∷ []
unfolding perform perform_all Defs.new_budget Defs.admit Defs.touch Defs.fits Defs.forget
    Defs.evict_oldest lookup remove
full_sizes = refl

evicts_oldest : (Defs.admit full "c" 50).1 ≡ "b" ∷ []
unfolding perform perform_all Defs.new_budget Defs.admit Defs.touch Defs.fits Defs.forget
    Defs.evict_oldest lookup remove
evicts_oldest = refl

full-IsValid : IsValid full
full-IsValid = new_budget-perform_all-IsValid 100 calls

admit_shortest_prefix_example :
    let n = length (Defs.admit full "c" 50).1 in
    ((Defs.admit full "c" 50).1 ≡ keys (take n (remove "c" full.sizes)))
    × ((Defs.admit full "c" 50).0.sizes ≡ drop n (remove "c" full.sizes) ++ ("c", 50) ∷ [])
    × ((sum_sizes (drop n (remove "c" full.sizes)) + 50 ≤ full.max_bytes) ⊎ (full.max_bytes < 50))
    × ((m : ℕ) → m < n → full.max_bytes < sum_sizes (drop m (remove "c" full.sizes)) + 50)
admit_shortest_prefix_example = admit_shortest_prefix full "c" 50 full-IsValid
