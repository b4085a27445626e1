-- ===== src/Keys/Decoding.antt =====
-- src/cachau/keys.py: what each branch of `_feed` leaves to read after its first emission.
use cachau.Keys.Framing.{
  Bytes, emit, emit_count, IsShort, emit_unique, emit_count_unique, payload_unique,
}
use cachau.Keys.Tags.{tag_distinct, tag-IsTag}
use cachau.Keys.Values.{
  Tag, tag, after, both, folded, folded_pairs, bytes_lt, pair_lt, join, join_pairs,
}
use cachau.Prelude.Sort.{sorted, sorted-Permᴰ, All-sorted}
use cachau.Prelude.{
  ℕ, suc, List, [], ◌∷◌, ◌++◌, Option, none, some, ◌≡◌, refl, sym, ap, ◌∙◌, arith, length, All,
}
use mathlib.Core.List.{append_assoc, Permᴰ}
use mathlib.Core.List.Permᴰ

pub after_some :
    (front a : Bytes) (o : Option Bytes)
    → after front o ≡ some a
    → (x : Bytes) × (o ≡ some x) × (a ≡ front ++ x)
after_some front a none h = cc
after_some front a (some x) h = (x, refl, cc)

pub both-some :
    (a : Bytes) (o p : Option Bytes)
    → both o p ≡ some a
    → (x y : Bytes) × (o ≡ some x) × (p ≡ some y) × (a ≡ x ++ y)
both-some a none p h = cc
both-some a (some x) none h = cc
both-some a (some x) (some y) h = (x, y, refl, refl, cc)

pub folded-some :
    (front a : Bytes) (o : Option (List Bytes))
    → folded front o ≡ some a
    → (ds : List Bytes) × (o ≡ some ds) × (a ≡ front ++ join (sorted bytes_lt ds))
folded-some front a none h = cc
folded-some front a (some ds) h = (ds, refl, cc)

pub folded_pairs-some :
    (front a : Bytes) (o : Option (List (Bytes × Bytes)))
    → folded_pairs front o ≡ some a
    → (ds : List (Bytes × Bytes)) × (o ≡ some ds) × (a ≡ front ++ join_pairs (sorted pair_lt ds))
folded_pairs-some front a none h = cc
folded_pairs-some front a (some ds) h = (ds, refl, cc)

-- Below an emission on both sides.
pub peel :
    (t u : Tag) (p q x y a b r s : Bytes)
    → IsShort (length p)
    → IsShort (length q)
    → a ≡ emit (tag t) p ++ x
    → b ≡ emit (tag u) q ++ y
    → a ++ r ≡ b ++ s
    → (t ≡ u) × (p ≡ q) × (x ++ r ≡ y ++ s)
peel t u p q x y a b r s i j e f h =
    let (tags, payload, rest) =
      emit_unique (tag t) (tag u) p q (x ++ r) (y ++ s) (tag-IsTag t) (tag-IsTag u) i j (
        sym (append_assoc (emit (tag t) p) x r)
        ∙ ap (λ z. z ++ r) (sym e)
        ∙ h
        ∙ ap (λ z. z ++ s) f
        ∙ append_assoc (emit (tag u) q) y s) in
    (tag_distinct t u tags, payload, rest)

pub peel_count :
    (t u : Tag) (n m : ℕ) (x y a b r s : Bytes)
    → IsShort n
    → IsShort m
    → a ≡ emit_count (tag t) n ++ x
    → b ≡ emit_count (tag u) m ++ y
    → a ++ r ≡ b ++ s
    → (t ≡ u) × (n ≡ m) × (x ++ r ≡ y ++ s)
peel_count t u n m x y a b r s i j e f h =
    let (tags, counts, rest) =
      emit_count_unique (tag t) (tag u) n m (x ++ r) (y ++ s) (tag-IsTag t) (tag-IsTag u) i j (
        sym (append_assoc (emit_count (tag t) n) x r)
        ∙ ap (λ z. z ++ r) (sym e)
        ∙ h
        ∙ ap (λ z. z ++ s) f
        ∙ append_assoc (emit_count (tag u) m) y s) in
    (tag_distinct t u tags, counts, rest)

pub length_perm {ℓ} : {A : Type ℓ} {a b : List A} → Permᴰ a b → length a ≡ length b
length_perm Permᴰ.nil = refl
length_perm (Permᴰ.cons _ p) = ap suc (length_perm p)
length_perm (Permᴰ.swap _ _) = refl
length_perm (Permᴰ.trans p q) = length_perm p ∙ length_perm q

-- Digests have one length.
module _ (n : ℕ) where
  abbrev IsDigest : Bytes → Type 0
  IsDigest b = length b ≡ n

  pub join_unique :
      (a b : List Bytes) (r s : Bytes)
      → All IsDigest a
      → All IsDigest b
      → length a ≡ length b
      → join a ++ r ≡ join b ++ s
      → (a ≡ b) × (r ≡ s)
  join_unique [] [] r s p q e h = (refl, h)
  join_unique [] (y ∷ b) r s p q e h = absurd (omega (arith, e))
  join_unique (x ∷ a) [] r s p q e h = absurd (omega (arith, e))
  join_unique (x ∷ a) (y ∷ b) r s (p, ps) (q, qs) e h =
      let (here, rest) =
        payload_unique x y (join a ++ r) (join b ++ s) (p ∙ sym q)
          (sym (append_assoc x (join a) r) ∙ h ∙ append_assoc y (join b) s) in
      let (same, over) = join_unique a b r s ps qs (omega (arith, e)) rest in (cc, over)

  pub join_pairs_unique :
      (a b : List (Bytes × Bytes)) (r s : Bytes)
      → All (λ d. IsDigest d.0 × IsDigest d.1) a
      → All (λ d. IsDigest d.0 × IsDigest d.1) b
      → length a ≡ length b
      → join_pairs a ++ r ≡ join_pairs b ++ s
      → (a ≡ b) × (r ≡ s)
  join_pairs_unique [] [] r s p q e h = (refl, h)
  join_pairs_unique [] (y ∷ b) r s p q e h = absurd (omega (arith, e))
  join_pairs_unique (x ∷ a) [] r s p q e h = absurd (omega (arith, e))
  join_pairs_unique ((k, x) ∷ a) ((l, y) ∷ b) r s ((p, p'), ps) ((q, q'), qs) e h =
      let split = λ (m z : Bytes) (c : List (Bytes × Bytes)) (t : Bytes).
        append_assoc m (z ++ join_pairs c) t ∙ ap (λ w. m ++ w) (append_assoc z (join_pairs c) t) in
      let (keys, rest) =
        payload_unique k l (x ++ (join_pairs a ++ r)) (y ++ (join_pairs b ++ s)) (p ∙ sym q)
          (sym (split k x a r) ∙ h ∙ split l y b s) in
      let (items, more) =
        payload_unique x y (join_pairs a ++ r) (join_pairs b ++ s) (p' ∙ sym q') rest in
      let (same, over) = join_pairs_unique a b r s ps qs (omega (arith, e)) more in (cc, over)

  -- Folded digests can be read back, but for their order.
  pub folded_unique :
      (a b : List Bytes) (r s : Bytes)
      → All IsDigest a
      → All IsDigest b
      → length a ≡ length b
      → join (sorted bytes_lt a) ++ r ≡ join (sorted bytes_lt b) ++ s
      → Permᴰ a b × (r ≡ s)
  folded_unique a b r s p q e h =
      let (same, over) =
        join_unique (sorted bytes_lt a) (sorted bytes_lt b) r s (All-sorted bytes_lt IsDigest a p)
          (All-sorted bytes_lt IsDigest b q)
          (length_perm (sorted-Permᴰ bytes_lt a) ∙ e ∙ sym (length_perm (sorted-Permᴰ bytes_lt b)))
          h in
      (Permᴰ.trans (Permᴰ.symm (sorted-Permᴰ bytes_lt a)) (rw same (sorted-Permᴰ bytes_lt b)), over)

  pub folded_pairs_unique :
      (a b : List (Bytes × Bytes)) (r s : Bytes)
      → All (λ d. IsDigest d.0 × IsDigest d.1) a
      → All (λ d. IsDigest d.0 × IsDigest d.1) b
      → length a ≡ length b
      → join_pairs (sorted pair_lt a) ++ r ≡ join_pairs (sorted pair_lt b) ++ s
      → Permᴰ a b × (r ≡ s)
  folded_pairs_unique a b r s p q e h =
      let (same, over) =
        join_pairs_unique (sorted pair_lt a) (sorted pair_lt b) r s
          (All-sorted pair_lt (λ d. IsDigest d.0 × IsDigest d.1) a p)
          (All-sorted pair_lt (λ d. IsDigest d.0 × IsDigest d.1) b q)
          (length_perm (sorted-Permᴰ pair_lt a) ∙ e ∙ sym (length_perm (sorted-Permᴰ pair_lt b)))
          h in
      (Permᴰ.trans (Permᴰ.symm (sorted-Permᴰ pair_lt a)) (rw same (sorted-Permᴰ pair_lt b)), over)
