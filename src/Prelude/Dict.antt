-- ===== src/Prelude/Dict.antt =====
-- Python's insertion-ordered `dict` and `OrderedDict` with string keys, oldest entry first.
use Prim.Native.String.{String}
use mathlib.Core.Path.{◌≡◌, refl}
use mathlib.Core.Option.{Option, none, some}
use mathlib.Core.List.{List, [], ◌∷◌, ◌++◌}
use native.Mathlib.Omega.{arith}
use text.Mathlib.Text.{◌==◌ as str_eq}
use text.Mathlib.TextEquality.{eq_iff}
use Prim.Native.Nat.{ℕ, zero, suc}
use mathlib.Core.Logic.{inl, inr}
use cachau.Prelude.Tests.{if◌then◌else◌, Bool-cases}
use cachau.Prelude.Lists.{drop}

abbrev pub Dict {ℓ} : Type ℓ → Type ℓ
Dict V = List (String × V)

module _ {ℓ} {V : Type ℓ} where
  -- d.get(k)
  unfoldable pub lookup : String → Dict V → Option V
  lookup k [] = none
  lookup k ((j, v) ∷ d) = if str_eq j k then some v else lookup k d

  -- d[k] = v: an existing key keeps its place, a new one comes last
  unfoldable pub insert : String → V → Dict V → Dict V
  insert k v [] = (k, v) ∷ []
  insert k v ((j, w) ∷ d) =
      let rest = insert k v d in if str_eq j k then (j, v) ∷ d else (j, w) ∷ rest

  -- d.pop(k, None)
  unfoldable pub remove : String → Dict V → Dict V
  remove k [] = []
  remove k ((j, v) ∷ d) = let rest = remove k d in if str_eq j k then rest else (j, v) ∷ rest

  pub lookup-insert :
      (k j : String) (v : V) (d : Dict V)
      → lookup j (insert k v d) ≡ (if str_eq k j then some v else lookup j d)
  unfolding lookup insert
  lookup-insert k j v [] = refl
  lookup-insert k j v ((i, w) ∷ d) =
      ground (arith, lookup-insert k j v d, eq_iff i k, eq_iff i j, eq_iff k j)

  pub lookup-remove :
      (k j : String) (d : Dict V)
      → lookup j (remove k d) ≡ (if str_eq k j then none else lookup j d)
  unfolding lookup remove
  lookup-remove k j [] = ground arith
  lookup-remove k j ((i, w) ∷ d) =
      ground (arith, lookup-remove k j d, eq_iff i k, eq_iff i j, eq_iff k j)

  pub lookup-append :
      (k : String) (c d : Dict V)
      → lookup k (c ++ d) ≡ elim (lookup k c) [ none ↦ lookup k d | some v ↦ some v ]
  unfolding lookup
  lookup-append k [] d = refl
  lookup-append k ((j, w) ∷ c) d = ground (arith, lookup-append k c d)

abbrev pub keys {ℓ} : {V : Type ℓ} → Dict V → List String
keys [] = []
keys ((k, v) ∷ d) = k ∷ keys d

-- No key twice.
pub data IsDistinct {ℓ} {V : Type ℓ} : Dict V → Type ℓ where
  nil : IsDistinct []
  cons :
      {k : String} {v : V} {d : Dict V} → lookup k d ≡ none → IsDistinct d → IsDistinct ((k, v) ∷ d)

module _ {ℓ} {V : Type ℓ} where
  pub remove_absent : (k : String) (d : Dict V) → lookup k d ≡ none → remove k d ≡ d
  unfolding lookup remove
  remove_absent k [] h = refl
  remove_absent k ((j, v) ∷ d) h = ground (arith, remove_absent k d)

  pub remove-IsDistinct : (k : String) {d : Dict V} → IsDistinct d → IsDistinct (remove k d)
  unfolding remove
  remove-IsDistinct k nil = nil
  remove-IsDistinct k (cons {k = j} {v} {d} h t) = elim (Bool-cases (str_eq j k)) [
    | inl e ↦ rw e (remove-IsDistinct k t)
    | inr e ↦ rw e (cons (simp (lookup-remove, h) (ground arith)) (remove-IsDistinct k t))
  ]

  -- A new key at the end.
  pub snoc-IsDistinct :
      {d : Dict V} (k : String) (v : V)
      → IsDistinct d
      → lookup k d ≡ none
      → IsDistinct (d ++ (k, v) ∷ [])
  unfolding lookup
  snoc-IsDistinct k v nil h = cons refl nil
  snoc-IsDistinct k v (cons {k = j} {v = w} {d} free t) h =
      cons (simp (lookup-append, free) (ground (arith, eq_iff j k, eq_iff k j)))
        (snoc-IsDistinct k v t (ground arith))

  pub drop-IsDistinct : (n : ℕ) {d : Dict V} → IsDistinct d → IsDistinct (drop n d)
  drop-IsDistinct zero t = t
  drop-IsDistinct (suc n) nil = nil
  drop-IsDistinct (suc n) (cons h t) = drop-IsDistinct n t

  -- What the first entries lack, the later ones lack too.
  pub lookup-drop :
      (n : ℕ) (k : String) (d : Dict V) → lookup k d ≡ none → lookup k (drop n d) ≡ none
  unfolding lookup
  lookup-drop zero k d h = h
  lookup-drop (suc n) k [] h = refl
  lookup-drop (suc n) k ((j, v) ∷ d) h = lookup-drop n k d (ground arith)
