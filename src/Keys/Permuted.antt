-- ===== src/Keys/Permuted.antt =====
-- src/cachau/keys.py: the digests of members and pairs that come in another order.
use cachau.Keys.Framing.{Bytes}
use cachau.Keys.Order.{bytes_lt-IsTotal, pair_lt-IsTotal}
use cachau.Keys.Values.{
  folded, folded_pairs, cons_digest, cons_pair, bytes_lt, pair_lt, join, join_pairs,
}
use cachau.Prelude.Sort.Invariance.{sorted_perm}
use cachau.Prelude.{List, ◌++◌, Option, none, some, ◌≡◌, refl, ap}
use mathlib.Core.List.{Permᴰ}

-- Both raised, or the same elements as often.
abbrev pub Permuted : {A : Type 0} → Option (List A) → Option (List A) → Type 0
Permuted none none = Unit
Permuted (some a) (some b) = Permᴰ a b
Permuted _ _ = ⊥

pub Permuted-trans :
    {A : Type 0} (o p q : Option (List A)) → Permuted o p → Permuted p q → Permuted o q
Permuted-trans none none none h g = tt
Permuted-trans (some a) (some b) (some c) h g = Permᴰ.trans h g
Permuted-trans none none (some c) h g = g
Permuted-trans none (some b) q h g = absurd h
Permuted-trans (some a) none q h g = absurd h
Permuted-trans (some a) (some b) none h g = g

pub folded_perm :
    (front : Bytes) (o p : Option (List Bytes)) → Permuted o p → folded front o ≡ folded front p
folded_perm front none none h = refl
folded_perm front none (some b) h = absurd h
folded_perm front (some a) none h = absurd h
folded_perm front (some a) (some b) h =
    ap (λ x. some (front ++ join x)) (sorted_perm bytes_lt bytes_lt-IsTotal h)

pub folded_pairs_perm :
    (front : Bytes) (o p : Option (List (Bytes × Bytes)))
    → Permuted o p
    → folded_pairs front o ≡ folded_pairs front p
folded_pairs_perm front none none h = refl
folded_pairs_perm front none (some b) h = absurd h
folded_pairs_perm front (some a) none h = absurd h
folded_pairs_perm front (some a) (some b) h =
    ap (λ x. some (front ++ join_pairs x)) (sorted_perm pair_lt pair_lt-IsTotal h)

module _ (hash : Bytes → Bytes) where
  pub cons-Permuted :
      (o : Option Bytes) (p q : Option (List Bytes))
      → Permuted p q
      → Permuted (cons_digest hash o p) (cons_digest hash o q)
  cons-Permuted none p q h = tt
  cons-Permuted (some a) none none h = tt
  cons-Permuted (some a) none (some b) h = h
  cons-Permuted (some a) (some b) none h = h
  cons-Permuted (some a) (some b) (some c) h = Permᴰ.cons refl h

  pub cons_swapped :
      (o p : Option Bytes) (q : Option (List Bytes))
      → Permuted
          (cons_digest hash o (cons_digest hash p q))
          (cons_digest hash p (cons_digest hash o q))
  cons_swapped none none q = tt
  cons_swapped none (some b) none = tt
  cons_swapped none (some b) (some c) = tt
  cons_swapped (some a) none q = tt
  cons_swapped (some a) (some b) none = tt
  cons_swapped (some a) (some b) (some c) = Permᴰ.swap refl refl

  pub pair-Permuted :
      (k v : Option Bytes) (p q : Option (List (Bytes × Bytes)))
      → Permuted p q
      → Permuted (cons_pair hash k v p) (cons_pair hash k v q)
  pair-Permuted none v p q h = tt
  pair-Permuted (some a) none p q h = tt
  pair-Permuted (some a) (some x) none none h = tt
  pair-Permuted (some a) (some x) none (some b) h = h
  pair-Permuted (some a) (some x) (some b) none h = h
  pair-Permuted (some a) (some x) (some b) (some c) h = Permᴰ.cons refl h

  pub pair_swapped :
      (k v l w : Option Bytes) (q : Option (List (Bytes × Bytes)))
      → Permuted
          (cons_pair hash k v (cons_pair hash l w q))
          (cons_pair hash l w (cons_pair hash k v q))
  pair_swapped none v none w q = tt
  pair_swapped none v (some b) none q = tt
  pair_swapped none v (some b) (some y) none = tt
  pair_swapped none v (some b) (some y) (some c) = tt
  pair_swapped (some a) none none w q = tt
  pair_swapped (some a) none (some b) none q = tt
  pair_swapped (some a) none (some b) (some y) none = tt
  pair_swapped (some a) none (some b) (some y) (some c) = tt
  pair_swapped (some a) (some x) none w q = tt
  pair_swapped (some a) (some x) (some b) none q = tt
  pair_swapped (some a) (some x) (some b) (some y) none = tt
  pair_swapped (some a) (some x) (some b) (some y) (some c) = Permᴰ.swap refl refl
