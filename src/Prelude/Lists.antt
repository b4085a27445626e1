-- ===== src/Prelude/Lists.antt =====
-- Lists measured and cut by native numbers, and lists of keys.
use Prim.Native.Nat.{ℕ, zero, suc, ◌+◌, ◌≤◌}
use Prim.Native.String.{String}
use mathlib.Core.Path.{◌≡◌, refl}
use mathlib.Core.Bool.{Bool, false, ◌||◌}
use mathlib.Core.List.{List, [], ◌∷◌, ◌++◌}
use native.Mathlib.Omega.{arith}
use text.Mathlib.Text.{◌==◌ as str_eq}
use text.Mathlib.TextEquality.{eq_iff}
use cachau.Prelude.Tests.{if◌then◌else◌}

module _ {ℓ} {A : Type ℓ} where
  abbrev pub length : List A → ℕ
  length [] = 0
  length (x ∷ xs) = suc (length xs)

  abbrev pub take : ℕ → List A → List A
  take zero xs = []
  take (suc n) [] = []
  take (suc n) (x ∷ xs) = x ∷ take n xs

  abbrev pub drop : ℕ → List A → List A
  drop zero xs = xs
  drop (suc n) [] = []
  drop (suc n) (x ∷ xs) = drop n xs

  pub length-append : (xs ys : List A) → length (xs ++ ys) ≡ length xs + length ys
  length-append [] ys = omega arith
  length-append (x ∷ xs) ys = omega (arith, length-append xs ys)

-- A predicate of every element.
abbrev pub All {ℓ κ} : {A : Type ℓ} → (A → Type κ) → List A → Type κ
All P [] = Unit
All P (x ∷ xs) = P x × All P xs

-- `key in keys`.
unfoldable pub contains : List String → String → Bool
contains [] k = false
contains (j ∷ ks) k = str_eq j k || contains ks k

-- `keys.pop(key, None)`, `keys.discard(key)`: every occurrence, of which there is at most one.
unfoldable pub discard : String → List String → List String
discard k [] = []
discard k (j ∷ ks) = let rest = discard k ks in if str_eq j k then rest else j ∷ rest

pub contains-append :
    (xs ys : List String) (k : String) → contains (xs ++ ys) k ≡ contains xs k || contains ys k
unfolding contains
contains-append [] ys k = refl
contains-append (j ∷ xs) ys k = ground (arith, contains-append xs ys k)

pub contains-discard :
    (k j : String) (ks : List String)
    → contains (discard k ks) j ≡ (if str_eq k j then false else contains ks j)
unfolding contains discard
contains-discard k j [] = ground arith
contains-discard k j (i ∷ ks) =
    ground (arith, contains-discard k j ks, eq_iff i k, eq_iff i j, eq_iff k j)

pub length-discard-le : (k : String) (ks : List String) → length (discard k ks) ≤ length ks
unfolding discard
length-discard-le k [] = omega arith
length-discard-le k (j ∷ ks) = ground (arith, length-discard-le k ks)
