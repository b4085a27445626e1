-- ===== src/Keys/Framing.antt =====
-- src/cachau/keys.py: `_emit` and `_emit_count`.
-- A byte string is the list of its bytes, and the hasher is what it was fed.
use cachau.Prelude.{
  ℕ, zero, suc, ◌/◌, ◌%◌, ◌^◌, ◌<◌, List, [], ◌∷◌, ◌++◌, ◌≡◌, ◌≢◌, refl, sym, ◌∙◌, arith, length,
  All,
}
use mathlib.Core.List.{append_assoc}

abbrev pub Bytes : Type 0
Bytes = List ℕ

-- `n.to_bytes(width, "big")`, for what fits
unfoldable pub to_bytes : ℕ → ℕ → Bytes
to_bytes zero n = []
to_bytes (suc width) n = to_bytes width (n / 256) ++ (n % 256 ∷ [])

abbrev pub length_bytes : ℕ
length_bytes = 8

-- The bytes that `_emit` adds.
unfoldable pub emit : Bytes → Bytes → Bytes
unfolding to_bytes
emit tag payload = tag ++ (0 ∷ (to_bytes length_bytes (length payload) ++ payload))

unfoldable pub emit_count : Bytes → ℕ → Bytes
unfolding to_bytes
emit_count tag count = tag ++ (0 ∷ to_bytes length_bytes count)

abbrev pub Excludes : ℕ → Bytes → Type 0
Excludes d = All (λ b. b ≢ d)

-- A tag has no zero byte.
abbrev pub IsTag : Bytes → Type 0
IsTag = Excludes 0

head_tail : (a b : ℕ) (as' bs : Bytes) → ◌≡◌ {A = Bytes} (a ∷ as') (b ∷ bs) → (a ≡ b) × (as' ≡ bs)
head_tail a b as' bs h = (cc, cc)

-- What stands before the first delimiter.
pub delimited_unique :
    (d : ℕ) (t u r s : Bytes)
    → Excludes d t
    → Excludes d u
    → t ++ (d ∷ r) ≡ u ++ (d ∷ s)
    → (t ≡ u) × (r ≡ s)
delimited_unique d [] [] r s p q h = (refl, (head_tail d d r s h).1)
delimited_unique d [] (b ∷ u) r s p (q, qs) h =
    absurd (q (sym (head_tail d b r (u ++ (d ∷ s)) h).0))
delimited_unique d (a ∷ t) [] r s (p, ps) q h = absurd (p (head_tail a d (t ++ (d ∷ r)) s h).0)
delimited_unique d (a ∷ t) (b ∷ u) r s (p, ps) (q, qs) h =
    let (same, rest) = head_tail a b (t ++ (d ∷ r)) (u ++ (d ∷ s)) h in
    let (e, f) = delimited_unique d t u r s ps qs rest in (cc, f)

pub tag_unique :
    (t u r s : Bytes) → IsTag t → IsTag u → t ++ (0 ∷ r) ≡ u ++ (0 ∷ s) → (t ≡ u) × (r ≡ s)
tag_unique = delimited_unique 0

to_bytes_unique :
    (width n m : ℕ) (r s : Bytes)
    → n < 256 ^ width
    → m < 256 ^ width
    → to_bytes width n ++ r ≡ to_bytes width m ++ s
    → (n ≡ m) × (r ≡ s)
unfolding to_bytes
to_bytes_unique zero n m r s p q h = (omega arith, h)
to_bytes_unique (suc width) n m r s p q h =
    let moved =
      sym (append_assoc (to_bytes width (n / 256)) (n % 256 ∷ []) r)
      ∙ h
      ∙ append_assoc (to_bytes width (m / 256)) (m % 256 ∷ []) s in
    let (high, rest) =
      to_bytes_unique width (n / 256) (m / 256) (n % 256 ∷ r) (m % 256 ∷ s) (omega arith)
        (omega arith) moved in
    let (low, tail) = head_tail (n % 256) (m % 256) r s rest in (omega arith, tail)

pub payload_unique : (p q r s : Bytes) → length p ≡ length q → p ++ r ≡ q ++ s → (p ≡ q) × (r ≡ s)
payload_unique [] [] r s e h = (refl, h)
payload_unique [] (b ∷ q) r s e h = absurd (omega (arith, e))
payload_unique (a ∷ p) [] r s e h = absurd (omega (arith, e))
payload_unique (a ∷ p) (b ∷ q) r s e h =
    let (same, rest) = head_tail a b (p ++ r) (q ++ s) h in
    let (f, g) = payload_unique p q r s (omega (arith, e)) rest in (cc, g)

-- A length that its eight bytes can hold.
abbrev pub IsShort : ℕ → Type 0
IsShort n = n < 256 ^ length_bytes

-- Two emissions whose bytes agree, whatever comes after them, have the same tag, the same payload
-- and the same bytes after them, for tags without a zero byte and payloads whose lengths eight bytes
-- can hold: no payload can pass for a delimiter.
pub emit_unique :
    (t u p q r s : Bytes)
    → IsTag t
    → IsTag u
    → IsShort (length p)
    → IsShort (length q)
    → emit t p ++ r ≡ emit u q ++ s
    → (t ≡ u) × (p ≡ q) × (r ≡ s)
unfolding emit
emit_unique t u p q r s a b c d h =
    let (tag, rest) =
      tag_unique t u ((to_bytes length_bytes (length p) ++ p) ++ r)
        ((to_bytes length_bytes (length q) ++ q) ++ s) a b
        (sym (append_assoc t (0 ∷ (to_bytes length_bytes (length p) ++ p)) r)
          ∙ h
          ∙ append_assoc u (0 ∷ (to_bytes length_bytes (length q) ++ q)) s) in
    let (size, bytes) = to_bytes_unique length_bytes (length p) (length q) (p ++ r) (q ++ s) c d (
      sym (append_assoc (to_bytes length_bytes (length p)) p r)
      ∙ rest
      ∙ append_assoc (to_bytes length_bytes (length q)) q s) in
    let (payload, after) = payload_unique p q r s size bytes in (tag, payload, after)

-- So have two emissions of a count.
pub emit_count_unique :
    (t u : Bytes) (n m : ℕ) (r s : Bytes)
    → IsTag t
    → IsTag u
    → IsShort n
    → IsShort m
    → emit_count t n ++ r ≡ emit_count u m ++ s
    → (t ≡ u) × (n ≡ m) × (r ≡ s)
unfolding emit_count
emit_count_unique t u n m r s a b c d h =
    let (tag, rest) =
      tag_unique t u (to_bytes length_bytes n ++ r) (to_bytes length_bytes m ++ s) a b (
        sym (append_assoc t (0 ∷ to_bytes length_bytes n) r)
        ∙ h
        ∙ append_assoc u (0 ∷ to_bytes length_bytes m) s) in
    let (count, after) = to_bytes_unique length_bytes n m r s c d rest in (tag, count, after)
