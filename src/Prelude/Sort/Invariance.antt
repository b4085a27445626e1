-- ===== src/Prelude/Sort/Invariance.antt =====
-- What sorting by a total order forgets: the order in which the elements came.
use cachau.Prelude.Sort.{insort, sorted}
use cachau.Prelude.Tests.{Bool-cases}
use mathlib.Core.Bool.{Bool, true, false}
use mathlib.Core.List.{List, [], ◌∷◌, Permᴰ}
use mathlib.Core.Logic.{inl, inr}
use mathlib.Core.Path.{◌≡◌, refl, sym, ap, ◌∙◌}
use native.Mathlib.Omega.{arith}

-- A strict order in which any two elements that differ are in order.
pub record IsTotal {ℓ} {A : Type ℓ} (before : A → A → Bool) : Type ℓ where
  pub asymmetric : (x y : A) → before x y ≡ true → before y x ≡ false
  pub transitive : (x y z : A) → before x y ≡ true → before y z ≡ true → before x z ≡ true
  pub connected : (x y : A) → before x y ≡ false → before y x ≡ false → x ≡ y

module _ {ℓ} {A : Type ℓ} (before : A → A → Bool) (total : IsTotal before) where
  insort_behind :
      (x y : A) (ys : List A)
      → before y x ≡ true
      → insort before x (y ∷ ys) ≡ y ∷ insort before x ys
  unfolding insort
  insort_behind x y ys h = rw h refl

  insort_front :
      (x y : A) (ys : List A) → before y x ≡ false → insort before x (y ∷ ys) ≡ x ∷ y ∷ ys
  unfolding insort
  insort_front x y ys h = rw h refl

  -- For `x` before `y`.
  insort_ordered :
      (x y : A) (l : List A)
      → before x y ≡ true
      → insort before x (insort before y l) ≡ insort before y (insort before x l)
  unfolding insort
  insort_ordered x y [] h = rw (total.asymmetric x y h, h) refl
  insort_ordered x y (z ∷ l) h = elim (Bool-cases (before z y)) [
    | inl p ↦ elim (Bool-cases (before z x)) [
      | inl q ↦ rw (p, q, p) (ap (λ r. z ∷ r) (insort_ordered x y l h))
      | inr q ↦ rw (p, q, h, p) refl
    ]
    | inr p ↦ elim (Bool-cases (before z x)) [
      | inl q ↦ absurd (ground (arith, p, total.transitive z x y q h))
      | inr q ↦ rw (p, q, total.asymmetric x y h, h, p) refl
    ]
  ]

  insort_comm :
      (x y : A) (l : List A)
      → insort before x (insort before y l) ≡ insort before y (insort before x l)
  insort_comm x y l = elim (Bool-cases (before x y)) [
    | inl h ↦ insort_ordered x y l h
    | inr h ↦ elim (Bool-cases (before y x)) [
      | inl g ↦ sym (insort_ordered y x l g)
      | inr g ↦ rw (total.connected x y h g) refl
    ]
  ]

  -- Lists of the same elements are sorted to the same list.
  pub sorted_perm : {l m : List A} → Permᴰ l m → sorted before l ≡ sorted before m
  unfolding sorted
  sorted_perm Permᴰ.nil = refl
  sorted_perm (Permᴰ.cons e p) = cc (e, sorted_perm p)
  sorted_perm (Permᴰ.swap {a = a} {b = b} {l = l} e f) =
      cc (e, f, insort_comm a b (sorted before l))
  sorted_perm (Permᴰ.trans p q) = sorted_perm p ∙ sorted_perm q
