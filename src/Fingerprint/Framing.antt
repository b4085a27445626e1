-- ===== src/Fingerprint/Framing.antt =====
-- src/cachau/fingerprint.py: what can be read back from the components that `_feed_framed` adds.
use cachau.Fingerprint.Code.{digits, decimal_text, colon, frame}
use cachau.Keys.Framing.{Bytes, Excludes, delimited_unique, payload_unique}
use cachau.Prelude.{
  ◌<◌, ℕ, zero, suc, ◌+◌, ◌-◌, ◌*◌, ◌/◌, ◌%◌, ◌≤◌, [], ◌∷◌, ◌++◌, ◌≡◌, refl, sym, ap, ◌∙◌, arith,
  length, ltb, Bool-cases, inl, inr,
}
use mathlib.Core.List.{append_assoc, append_cancel_left}

-- The number that a decimal text spells.
abbrev pub spelled : ℕ → Bytes → ℕ
spelled acc [] = acc
spelled acc (b ∷ bs) = spelled (acc * 10 + (b - 48)) bs

spelled-append : (acc : ℕ) (a b : Bytes) → spelled acc (a ++ b) ≡ spelled (spelled acc a) b
spelled-append acc [] b = refl
spelled-append acc (x ∷ a) b = spelled-append (acc * 10 + (x - 48)) a b

pub spelled-digits : (fuel n : ℕ) → n ≤ fuel → spelled 0 (digits fuel n) ≡ n
unfolding digits
spelled-digits zero n h = omega arith
spelled-digits (suc fuel) n h = elim (Bool-cases (ltb n 10)) [
  | inl e ↦ rw e (omega arith)
  | inr e ↦ rw e (
      spelled-append 0 (digits fuel (n / 10)) ((48 + n % 10) ∷ [])
      ∙ rw (spelled-digits fuel (n / 10) (ground (arith, e))) (omega arith))
]

Excludes-append : (d : ℕ) (a b : Bytes) → Excludes d a → Excludes d b → Excludes d (a ++ b)
Excludes-append d [] b p q = q
Excludes-append d (x ∷ a) b (p, ps) q = (p, Excludes-append d a b ps q)

pub digits-Excludes : (d : ℕ) → 57 < d → (fuel n : ℕ) → Excludes d (digits fuel n)
unfolding digits
digits-Excludes d h zero n = ((λ e. omega (arith, h, e)), tt)
digits-Excludes d h (suc fuel) n = elim (Bool-cases (ltb n 10)) [
  | inl e ↦ rw e ((λ f. ground (arith, e, f)), tt)
  | inr e ↦ rw e (
      Excludes-append d (digits fuel (n / 10)) ((48 + n % 10) ∷ [])
        (digits-Excludes d h fuel (n / 10)) ((λ f. omega (arith, f)), tt))
]

-- A component says where it ends, whatever comes after it.
pub frame_unique : (tag p q r s : Bytes) → frame tag p ++ r ≡ frame tag q ++ s → (p ≡ q) × (r ≡ s)
unfolding frame
frame_unique tag p q r s h =
    let framed = λ (b : Bytes) (c : Bytes).
      append_assoc tag (decimal_text (length b) ++ (colon ∷ b)) c
      ∙ ap (λ x. tag ++ x) (append_assoc (decimal_text (length b)) (colon ∷ b) c) in
    let body =
      append_cancel_left tag (decimal_text (length p) ++ (colon ∷ (p ++ r)))
        (decimal_text (length q) ++ (colon ∷ (q ++ s))) (sym (framed p r) ∙ h ∙ framed q s) in
    let (size, rest) =
      delimited_unique colon (decimal_text (length p)) (decimal_text (length q)) (p ++ r) (q ++ s)
        (digits-Excludes colon (omega arith) (length p) (length p))
        (digits-Excludes colon (omega arith) (length q) (length q)) body in
    let same =
      sym (spelled-digits (length p) (length p) (omega arith))
      ∙ ap (spelled 0) size
      ∙ spelled-digits (length q) (length q) (omega arith) in
    payload_unique p q r s same rest
