-- ===== src/Fingerprint/Bindings.antt =====
-- src/cachau/fingerprint.py: the text of closures and defaults, each a name and the digest of a value,
-- and how it is read back.
use cachau.Fingerprint.Code.{digits, decimal_text}
use cachau.Fingerprint.Framing.{digits-Excludes}
use cachau.Keys.Framing.{Bytes, Excludes, delimited_unique, payload_unique}
use cachau.Prelude.{
  ℕ, zero, suc, ◌+◌, ◌/◌, ◌%◌, ltb, Bool-cases, inl, inr, List, [], ◌∷◌, ◌++◌, ◌≡◌, ◌≢◌, refl, sym,
  ap, ◌∙◌, arith, All, length,
}
use mathlib.Core.List.{append_assoc, append_cancel_left}

abbrev pub equals : ℕ
equals = 61

abbrev pub bar : ℕ
bar = 124

-- `name=` and a digest, again and again
abbrev pub render : List (Bytes × Bytes) → Bytes
render [] = []
render ((name, digest) ∷ rest) = name ++ (equals ∷ (digest ++ render rest))

-- A title before what there is, if there is any.
abbrev pub section : Bytes → List (Bytes × Bytes) → Bytes
section title [] = []
section title (binding ∷ rest) = title ++ render (binding ∷ rest)

-- A name has no equals sign and does not begin with a bar.
abbrev pub IsLabel : Bytes → Type 0
IsLabel [] = ⊥
IsLabel (b ∷ name) = (b ≢ bar) × Excludes equals (b ∷ name)

-- What follows: nothing, or a bar.
abbrev pub IsBarred : Bytes → Type 0
IsBarred [] = Unit
IsBarred (b ∷ rest) = b ≡ bar

labelled : (b : Bytes) → b ≢ [] → Excludes bar b → Excludes equals b → IsLabel b
labelled [] h p q = h refl
labelled (x ∷ b) h (p, ps) q = (p, q)

nonempty : (fuel n : ℕ) → digits fuel n ≢ []
unfolding digits
nonempty zero n h = cc
nonempty (suc fuel) n h = elim (Bool-cases (ltb n 10)) [
  | inl e ↦ absurd (cc (e, h))
  | inr e ↦ filled (digits fuel (n / 10)) (48 + n % 10) (cc (e, h))
]
  where
    filled : (b : Bytes) (x : ℕ) → b ++ (x ∷ []) ≢ []
    filled [] x g = cc
    filled (y ∷ b) x g = cc

-- A number is a label.
pub decimal_text-IsLabel : (n : ℕ) → IsLabel (decimal_text n)
decimal_text-IsLabel n =
    labelled (decimal_text n) (nonempty n n) (digits-Excludes bar (omega arith) n n)
      (digits-Excludes equals (omega arith) n n)

stops :
    (name digest : Bytes) (rest : List (Bytes × Bytes)) (r s : Bytes)
    → IsLabel name
    → IsBarred r
    → r ≢ render ((name, digest) ∷ rest) ++ s
stops [] digest rest r s i b e = absurd i
stops (x ∷ name) digest rest [] s i b e = cc
stops (x ∷ name) digest rest (y ∷ r) s (d, i) b e = d cc

IsLabel-Excludes : (name : Bytes) → IsLabel name → Excludes equals name
IsLabel-Excludes [] i = absurd i
IsLabel-Excludes (b ∷ name) (d, i) = i

regroup :
    (name digest : Bytes) (rest : List (Bytes × Bytes)) (r : Bytes)
    → render ((name, digest) ∷ rest) ++ r ≡ name ++ (equals ∷ (digest ++ (render rest ++ r)))
regroup name digest rest r =
    append_assoc name (equals ∷ (digest ++ render rest)) r
    ∙ ap (λ x. name ++ (equals ∷ x)) (append_assoc digest (render rest) r)

-- What follows is no section with this title.
abbrev pub IsApart : ℕ → Bytes → Type 0
IsApart x [] = Unit
IsApart x (b ∷ []) = ⊥
IsApart x (b ∷ y ∷ rest) = (b ≡ bar) × (y ≢ x)

apart-IsBarred : (x : ℕ) (r : Bytes) → IsApart x r → IsBarred r
apart-IsBarred x [] h = tt
apart-IsBarred x (b ∷ []) h = absurd h
apart-IsBarred x (b ∷ y ∷ r) (e, d) = e

differs : (x : ℕ) (title rest r : Bytes) → IsApart x r → r ≢ bar ∷ x ∷ (title ++ rest)
differs x title rest [] h e = cc
differs x title rest (b ∷ []) h e = h
differs x title rest (b ∷ y ∷ r) (f, d) e = d cc

module _ (size : ℕ) where
  abbrev pub IsBinding : Bytes × Bytes → Type 0
  IsBinding (name, digest) = IsLabel name × (length digest ≡ size)

  pub render_unique :
      (a b : List (Bytes × Bytes)) (r s : Bytes)
      → All IsBinding a
      → All IsBinding b
      → IsBarred r
      → IsBarred s
      → render a ++ r ≡ render b ++ s
      → (a ≡ b) × (r ≡ s)
  render_unique [] [] r s p q i j h = (refl, h)
  render_unique [] ((n, d) ∷ b) r s p ((q, l), qs) i j h = absurd (stops n d b r s q i h)
  render_unique ((n, d) ∷ a) [] r s ((p, l), ps) q i j h = absurd (stops n d a s r p j (sym h))
  render_unique ((n, d) ∷ a) ((m, e) ∷ b) r s ((p, l), ps) ((q, k), qs) i j h =
      let (names, below) =
        delimited_unique equals n m (d ++ (render a ++ r)) (e ++ (render b ++ s))
          (IsLabel-Excludes n p) (IsLabel-Excludes m q)
          (sym (regroup n d a r) ∙ h ∙ regroup m e b s) in
      let (digests, more) = payload_unique d e (render a ++ r) (render b ++ s) (l ∙ sym k) below in
      let (same, rest) = render_unique a b r s ps qs i j more in (cc, rest)

  pub section_unique :
      (x : ℕ) (title : Bytes) (a b : List (Bytes × Bytes)) (r s : Bytes)
      → All IsBinding a
      → All IsBinding b
      → IsApart x r
      → IsApart x s
      → section (bar ∷ x ∷ title) a ++ r ≡ section (bar ∷ x ∷ title) b ++ s
      → (a ≡ b) × (r ≡ s)
  section_unique x title [] [] r s p q i j h = (refl, h)
  section_unique x title [] (e ∷ b) r s p q i j h = absurd (
      differs x title (render (e ∷ b) ++ s) r i
        (h ∙ append_assoc (bar ∷ x ∷ title) (render (e ∷ b)) s))
  section_unique x title (d ∷ a) [] r s p q i j h = absurd (
      differs x title (render (d ∷ a) ++ r) s j
        (sym h ∙ append_assoc (bar ∷ x ∷ title) (render (d ∷ a)) r))
  section_unique x title (d ∷ a) (e ∷ b) r s p q i j h =
      render_unique (d ∷ a) (e ∷ b) r s p q (apart-IsBarred x r i) (apart-IsBarred x s j) (
        append_cancel_left (bar ∷ x ∷ title) (render (d ∷ a) ++ r) (render (e ∷ b) ++ s) (
          sym (append_assoc (bar ∷ x ∷ title) (render (d ∷ a)) r)
          ∙ h
          ∙ append_assoc (bar ∷ x ∷ title) (render (e ∷ b)) s))
