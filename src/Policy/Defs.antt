-- ===== src/Policy/Defs.antt =====
-- src/cachau/policy.py: the class `LRUBudget` and its methods.
use cachau.Prelude.Dict.{Dict, lookup, remove}
use cachau.Prelude.{
  ℕ, ◌+◌, ◌-◌, String, List, [], ◌∷◌, ◌++◌, Bool, Option, none, some, ltb, leb, if◌then◌else◌,
}

pub record LruBudget : Type 0 where
  pub max_bytes : ℕ
  pub sizes : Dict ℕ
  pub total : ℕ

-- `__init__`
unfoldable pub new_budget : ℕ → LruBudget
new_budget max_bytes = record { max_bytes = max_bytes; sizes = []; total = 0 }

unfoldable pub fits : LruBudget → ℕ → Bool
fits b size = leb size b.max_bytes

-- `move_to_end` of a key that is there, with its size.
abbrev pub move_to_end : String → Option ℕ → Dict ℕ → Dict ℕ
move_to_end key none sizes = sizes
move_to_end key (some size) sizes = remove key sizes ++ (key, size) ∷ []

unfoldable pub touch : LruBudget → String → LruBudget
touch b key = record b { sizes = move_to_end key (lookup key b.sizes) b.sizes }

-- `_total` after `_forget_locked` popped an entry of this size.
abbrev pub less_size : ℕ → Option ℕ → ℕ
less_size total none = total
less_size total (some size) = total - size

-- `forget` and `_forget_locked`
unfoldable pub forget : LruBudget → String → LruBudget
forget b key = record b {
  sizes = remove key b.sizes;
  total = less_size b.total (lookup key b.sizes);
}

pub record Evicted : Type 0 where
  pub evicted : List String
  pub kept : Dict ℕ
  pub total : ℕ

-- The `while` loop of `admit`, for a new entry of `size` bytes.
unfoldable pub evict_oldest : ℕ → ℕ → ℕ → Dict ℕ → Evicted
evict_oldest max_bytes size total [] = record { evicted = []; kept = []; total = total }
evict_oldest max_bytes size total ((oldest_key, oldest_size) ∷ sizes) =
    let rest = evict_oldest max_bytes size (total - oldest_size) sizes in
    if ltb max_bytes (total + size)
    then record rest { evicted = oldest_key ∷ rest.evicted }
    else record { evicted = []; kept = (oldest_key, oldest_size) ∷ sizes; total = total }

unfoldable pub admit : LruBudget → String → ℕ → LruBudget × List String
admit b key size =
    let c = forget b key in
    let e = evict_oldest c.max_bytes size c.total c.sizes in
    (record c { sizes = e.kept ++ (key, size) ∷ []; total = e.total + size }, e.evicted)

unfoldable pub reset : LruBudget → LruBudget
reset b = record b { sizes = []; total = 0 }
