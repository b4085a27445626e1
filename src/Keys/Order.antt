-- ===== src/Keys/Order.antt =====
-- src/cachau/keys.py: the order by which `sorted` arranges digests and pairs of digests.
use cachau.Keys.Framing.{Bytes}
use cachau.Keys.Values.{bytes_lt, pair_lt}
use cachau.Prelude.Sort.Invariance.{IsTotal}
use cachau.Prelude.{[], ◌∷◌, true, false, Bool-cases, inl, inr, ◌≡◌, refl, arith}

asymmetric : (a b : Bytes) → bytes_lt a b ≡ true → bytes_lt b a ≡ false
unfolding bytes_lt
asymmetric a [] h = cc
asymmetric [] (y ∷ b) h = refl
asymmetric (x ∷ a) (y ∷ b) h = ground (arith, h, asymmetric a b)

transitive : (a b c : Bytes) → bytes_lt a b ≡ true → bytes_lt b c ≡ true → bytes_lt a c ≡ true
unfolding bytes_lt
transitive a [] c h g = cc
transitive a (y ∷ b) [] h g = cc
transitive [] (y ∷ b) (z ∷ c) h g = refl
transitive (x ∷ a) (y ∷ b) (z ∷ c) h g = ground (arith, h, g, transitive a b c)

connected : (a b : Bytes) → bytes_lt a b ≡ false → bytes_lt b a ≡ false → a ≡ b
unfolding bytes_lt
connected [] [] h g = refl
connected [] (y ∷ b) h g = cc
connected (x ∷ a) [] h g = cc
connected (x ∷ a) (y ∷ b) h g =
    let e : x ≡ y = ground (arith, h, g) in
    let f = connected a b (ground (arith, h, g)) (ground (arith, h, g)) in cc

pub bytes_lt-IsTotal : IsTotal bytes_lt
bytes_lt-IsTotal = record {
  asymmetric = asymmetric;
  transitive = transitive;
  connected = connected;
}

below_not_above : (a b c : Bytes) → bytes_lt a b ≡ true → bytes_lt c b ≡ false → bytes_lt a c ≡ true
below_not_above a b c h g = elim (Bool-cases (bytes_lt b c)) [
  | inl e ↦ transitive a b c h e
  | inr e ↦ rw (connected b c e g) at h
]

not_above_below : (a b c : Bytes) → bytes_lt b a ≡ false → bytes_lt b c ≡ true → bytes_lt a c ≡ true
not_above_below a b c h g = elim (Bool-cases (bytes_lt a b)) [
  | inl e ↦ transitive a b c e g
  | inr e ↦ rw (connected b a h e) at g
]

not_above_not_above :
    (a b c : Bytes) → bytes_lt b a ≡ false → bytes_lt c b ≡ false → bytes_lt c a ≡ false
not_above_not_above a b c h g = elim (Bool-cases (bytes_lt c a)) [
  | inl e ↦ absurd (ground (arith, g, below_not_above c a b e h))
  | inr e ↦ e
]

pair_asymmetric : (p q : Bytes × Bytes) → pair_lt p q ≡ true → pair_lt q p ≡ false
unfolding pair_lt
pair_asymmetric (a, b) (c, d) h = ground (arith, h, asymmetric a c, asymmetric c a, asymmetric b d)

pair_transitive :
    (p q r : Bytes × Bytes) → pair_lt p q ≡ true → pair_lt q r ≡ true → pair_lt p r ≡ true
unfolding pair_lt
pair_transitive (a, b) (c, d) (e, f) h g = ground (
  arith,
  h,
  g,
  transitive a c e,
  below_not_above a c e,
  not_above_below a c e,
  not_above_not_above a c e,
  transitive b d f,
)

pair_connected : (p q : Bytes × Bytes) → pair_lt p q ≡ false → pair_lt q p ≡ false → p ≡ q
unfolding pair_lt
pair_connected (a, b) (c, d) h g =
    let e = connected a c (ground (arith, h, g)) (ground (arith, h, g)) in
    let f = connected b d (ground (arith, h, g)) (ground (arith, h, g)) in cc

pub pair_lt-IsTotal : IsTotal pair_lt
pair_lt-IsTotal = record {
  asymmetric = pair_asymmetric;
  transitive = pair_transitive;
  connected = pair_connected;
}
