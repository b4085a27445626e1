-- ===== src/Prelude/Sort.antt =====
-- Python's `sorted`: a stable insertion sort by a strict order, and what sorting guarantees.
pub mod Invariance
use cachau.Prelude.Lists.{All}
use cachau.Prelude.Tests.{if◌then◌else◌, Bool-cases}
use mathlib.Core.Bool.{Bool, true, false}
use mathlib.Core.List.{List, [], ◌∷◌, Permᴰ}
use mathlib.Core.List.Permᴰ
use mathlib.Core.Logic.{inl, inr}
use mathlib.Core.Path.{◌≡◌, refl}

module _ {ℓ} {A : Type ℓ} (before : A → A → Bool) where
  unfoldable pub insort : A → List A → List A
  insort x [] = x ∷ []
  insort x (y ∷ ys) = let rest = insort x ys in if before y x then y ∷ rest else x ∷ y ∷ ys

  unfoldable pub sorted : List A → List A
  unfolding insort
  sorted [] = []
  sorted (x ∷ xs) = insort x (sorted xs)

  -- No element comes after one that it should come before.
  pub data IsSorted : List A → Type ℓ where
    nil : IsSorted []
    one : {x : A} → IsSorted (x ∷ [])
    next : {x y : A} {ys : List A} → before y x ≡ false → IsSorted (y ∷ ys) → IsSorted (x ∷ y ∷ ys)

  -- The sorted rest was `z ∷ ys`, and `b` says whether `x` goes behind its head.
  below :
      {x y z : A} (ys rest : List A)
      → (b : Bool) → before x y ≡ false
      → before z y ≡ false
      → IsSorted (if b then z ∷ rest else x ∷ z ∷ ys)
      → IsSorted (y ∷ (if b then z ∷ rest else x ∷ z ∷ ys))
  below ys rest true g h t = next h t
  below ys rest false g h t = next g t

  insort-Permᴰ : (x : A) (l : List A) → Permᴰ (insort x l) (x ∷ l)
  unfolding insort
  insort-Permᴰ x [] = Permᴰ.refl (x ∷ [])
  insort-Permᴰ x (y ∷ ys) = elim (Bool-cases (before y x)) [
    | inl e ↦ rw e (Permᴰ.trans (Permᴰ.cons refl (insort-Permᴰ x ys)) (Permᴰ.swap refl refl))
    | inr e ↦ rw e (Permᴰ.refl (x ∷ y ∷ ys))
  ]

  -- Sorting loses no element and makes none up.
  pub sorted-Permᴰ : (l : List A) → Permᴰ (sorted l) l
  unfolding sorted
  sorted-Permᴰ [] = Permᴰ.nil
  sorted-Permᴰ (x ∷ l) = Permᴰ.trans (insort-Permᴰ x (sorted l)) (Permᴰ.cons refl (sorted-Permᴰ l))

  module _ (asymmetric : (x y : A) → before x y ≡ true → before y x ≡ false) where
    insort-IsSorted : (x : A) {l : List A} → IsSorted l → IsSorted (insort x l)
    unfolding insort
    insort-IsSorted x nil = one
    insort-IsSorted x (one {x = y}) = elim (Bool-cases (before y x)) [
      | inl e ↦ rw e (next (asymmetric y x e) one)
      | inr e ↦ rw e (next e one)
    ]
    insort-IsSorted x (next {x = y} {y = z} {ys} h t) = elim (Bool-cases (before y x)) [
      | inr e ↦ rw e (next e (next h t))
      | inl e ↦
          rw e (below ys (insort x ys) (before z x) (asymmetric y x e) h (insort-IsSorted x t))
    ]

    pub sorted-IsSorted : (l : List A) → IsSorted (sorted l)
    unfolding sorted
    sorted-IsSorted [] = nil
    sorted-IsSorted (x ∷ l) = insort-IsSorted x (sorted-IsSorted l)

  module _ {κ} (P : A → Type κ) where
    All-insort : (x : A) (l : List A) → P x → All P l → All P (insort x l)
    unfolding insort
    All-insort x [] p q = (p, tt)
    All-insort x (y ∷ l) p (q, rest) = elim (Bool-cases (before y x)) [
      | inl e ↦ rw e (q, All-insort x l p rest)
      | inr e ↦ rw e (p, (q, rest))
    ]

    pub All-sorted : (l : List A) → All P l → All P (sorted l)
    unfolding sorted
    All-sorted [] q = tt
    All-sorted (x ∷ l) (p, q) = All-insort x (sorted l) p (All-sorted l q)

    -- `b` says whether `x` went behind `y`.
    All-either :
        (x y : A) (l rest : List A) (b : Bool)
        → (All P rest → P x × All P l)
        → All P (if b then y ∷ rest else x ∷ y ∷ l)
        → P x × (P y × All P l)
    All-either x y l rest true f (q, h) = let (p, t) = f h in (p, (q, t))
    All-either x y l rest false f h = h

    All-uninsort : (x : A) (l : List A) → All P (insort x l) → P x × All P l
    unfolding insort
    All-uninsort x [] h = h
    All-uninsort x (y ∷ l) h = All-either x y l (insort x l) (before y x) (All-uninsort x l) h

    -- What holds of all elements in order holds of all of them.
    pub All-unsorted : (l : List A) → All P (sorted l) → All P l
    unfolding sorted
    All-unsorted [] h = tt
    All-unsorted (x ∷ l) h = let (p, rest) = All-uninsort x (sorted l) h in (p, All-unsorted l rest)
