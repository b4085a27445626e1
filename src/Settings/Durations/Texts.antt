-- ===== src/Settings/Durations/Texts.antt =====
-- src/cachau/durations.py: the units of a lifetime, and a text without its last character.
use Prim.Native.Char.{Char, code}
use Prim.Native.String.{◌++◌ as ◌+++◌}
use cachau.Prelude.{
  ℕ, String, Option, none, some, ◌==◌, ◌≡◌, refl, arith, Bool-cases, inl, inr, Option-cases,
}
use package.text.Mathlib.TextLemmas.{nil-append, cons-append}
use cachau.Settings.Defs.{text, split_last}
use cachau.Settings.Durations.{unit_seconds}
use mathlib.Core.Path.{subst}

-- The units and their seconds, as the documentation has them.
pub data HasSeconds : Char → ℕ → Type 0 where
  seconds : {c : Char} → code c ≡ b's' → HasSeconds c 1
  minutes : {c : Char} → code c ≡ b'm' → HasSeconds c 60
  hours : {c : Char} → code c ≡ b'h' → HasSeconds c 3600
  days : {c : Char} → code c ≡ b'd' → HasSeconds c 86_400

pub HasSeconds-unit_seconds : {c : Char} {k : ℕ} → HasSeconds c k → unit_seconds c ≡ some k
unfolding unit_seconds
HasSeconds-unit_seconds (seconds e) = rw e refl
HasSeconds-unit_seconds (minutes e) = rw e refl
HasSeconds-unit_seconds (hours e) = rw e refl
HasSeconds-unit_seconds (days e) = rw e refl

pub unit_seconds-HasSeconds : (c : Char) (k : ℕ) → unit_seconds c ≡ some k → HasSeconds c k
unfolding unit_seconds
unit_seconds-HasSeconds c k h = elim (Bool-cases (code c == b's')) [
  | inl s ↦
      let e : 1 ≡ k = ground (arith, h, s) in subst (HasSeconds c) e (seconds (ground (arith, s)))
  | inr s ↦ elim (Bool-cases (code c == b'm')) [
    | inl m ↦
        let e : 60 ≡ k = ground (arith, h, s, m) in
        subst (HasSeconds c) e (minutes (ground (arith, m)))
    | inr m ↦ elim (Bool-cases (code c == b'h')) [
      | inl o ↦
          let e : 3600 ≡ k = ground (arith, h, s, m, o) in
          subst (HasSeconds c) e (hours (ground (arith, o)))
      | inr o ↦ elim (Bool-cases (code c == b'd')) [
        | inl d ↦
            let e : 86_400 ≡ k = ground (arith, h, s, m, o, d) in
            subst (HasSeconds c) e (days (ground (arith, d)))
        | inr d ↦ absurd (ground (arith, h, s, m, o, d))
      ]
    ]
  ]
]

split_last-nil : (t : String) → split_last t ≡ none → t ≡ String.[]
unfolding split_last
split_last-nil String.[] h = refl
split_last-nil (String.◌∷◌ c t) h = elim (Option-cases (split_last t)) [
  | inl e ↦ let no = rw e at h in absurd (cc)
  | inr ((m, d), e) ↦ let no = rw e at h in absurd (cc)
]

pub split_last-joined :
    (t m : String) (c : Char) → split_last t ≡ some (m, c) → t ≡ m +++ String.◌∷◌ c String.[]
unfolding split_last
split_last-joined String.[] m c h = absurd (cc)
split_last-joined (String.◌∷◌ d t) m c h = elim (Option-cases (split_last t)) [
  | inl e ↦
      let empty = split_last-nil t e in
      let whole : ◌≡◌ {A = Option (String × Char)} (some (String.[], d)) (some (m, c)) =
        rw e at h in
      let begins : String.[] ≡ m = cc in
      let ends : d ≡ c = cc in rw (empty, ends, ← begins, nil-append (String.◌∷◌ c String.[])) refl
  | inr ((m', d'), e) ↦
      let whole : ◌≡◌ {A = Option (String × Char)} (some (String.◌∷◌ d m', d')) (some (m, c)) =
        rw e at h in
      let begins : String.◌∷◌ d m' ≡ m = cc in
      let ends : d' ≡ c = cc in
      rw (split_last-joined t m' d' e, ends, ← begins, cons-append d m' (String.◌∷◌ c String.[]))
        refl
]
