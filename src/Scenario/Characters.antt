-- ===== src/Scenario/Characters.antt =====
-- Characters from their numbers.
use Prim.Native.Char.{Char, char, code, IsLt}
use Prim.Native.Nat.{Ordering, compare}
use cachau.Prelude.{ℕ, Option, none, some, ◌≡◌, refl, arith}
use package.text.Mathlib.TextEquality.{Char-path}

abbrev BothBelow : Ordering → Ordering → Type 0
BothBelow Ordering.lt o = IsLt o
BothBelow Ordering.eq _ = ⊥
BothBelow Ordering.gt _ = ⊥

abbrev Scalar : Ordering → Ordering → Ordering → Type 0
Scalar Ordering.lt _ _ = Unit
Scalar Ordering.eq o p = BothBelow o p
Scalar Ordering.gt o p = BothBelow o p

check_both : (o p : Ordering) → Option (BothBelow o p)
check_both Ordering.lt Ordering.lt = some tt
check_both Ordering.lt Ordering.eq = none
check_both Ordering.lt Ordering.gt = none
check_both Ordering.eq p = none
check_both Ordering.gt p = none

check : (a o p : Ordering) → Option (Scalar a o p)
unfolding check_both
check Ordering.lt o p = some tt
check Ordering.eq o p = check_both o p
check Ordering.gt o p = check_both o p

check_both-some :
    (o p : Ordering) (h : BothBelow o p) → (k : BothBelow o p) × (check_both o p ≡ some k)
unfolding check_both
check_both-some Ordering.lt Ordering.lt h = (tt, refl)
check_both-some Ordering.lt Ordering.eq h = absurd h
check_both-some Ordering.lt Ordering.gt h = absurd h
check_both-some Ordering.eq p h = absurd h
check_both-some Ordering.gt p h = absurd h

check-some : (a o p : Ordering) (h : Scalar a o p) → (k : Scalar a o p) × (check a o p ≡ some k)
unfolding check
check-some Ordering.lt o p h = (tt, refl)
check-some Ordering.eq o p h = check_both-some o p h
check-some Ordering.gt o p h = check_both-some o p h

unfoldable pub character : ℕ → Option Char
unfolding check
character n = elim (check (compare n 55296) (compare 57343 n) (compare n 1114112)) [
  | none ↦ none
  | some h ↦ some (char n h)
]

pub character-code : (c : Char) → character (code c) ≡ some c
unfolding character
character-code (char n p) =
    let (k, e) = check-some (compare n 55296) (compare 57343 n) (compare n 1114112) p in
    ground (arith, e, Char-path (char n k) (char n p))
