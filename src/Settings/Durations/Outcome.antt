-- ===== src/Settings/Durations/Outcome.antt =====
-- src/cachau/durations.py: what `parse_ttl` makes of every setting, against what the setting reads as.
use Prim.Native.Char.{Char}
use Prim.Native.String.{◌++◌ as ◌+++◌}
use cachau.Prelude.Exec.{Result, ok, raise}
use cachau.Prelude.Int.{ℤ, pos, negsuc}
use cachau.Prelude.{
  ℕ, ◌<◌, String, Bool, ◌≢◌, sym, ap, ◌∙◌, Option, none, some, ltb, ◌≡◌, refl, arith, ltb→lt,
  Bool-cases, inl, inr,
}
use cachau.Settings.Defs.{
  float_of_int, Float, finite, infinite, nan, Setting, absent, boolean, integer, real, text, other,
  times, split_last,
}
use cachau.Settings.Durations.{
  TtlError, invalid_ttl, overflow, unit_seconds, split_last-append, positive, from_magnitude,
  from_unit, from_text, from_integer, parse_ttl,
}
use cachau.Settings.Durations.Texts.{
  HasSeconds, HasSeconds-unit_seconds, unit_seconds-HasSeconds, split_last-joined,
}

module _ (float_of : String → Option Float) where
  -- What `float` makes of a setting: of a number, or of a text's magnitude times its unit.
  pub data Reads : Setting → Float → Type 0 where
    integer_reads : {n : ℤ} {x : Float} → float_of_int n ≡ some x → Reads (integer n) x
    real_reads : {x : Float} → Reads (real x) x
    text_reads :
        {m : String} {unit : Char} {scale : ℕ} {x : Float}
        → HasSeconds unit scale
        → float_of m ≡ some x
        → Reads (text (m +++ String.◌∷◌ unit String.[])) (times x scale)

  -- The setting has a reading, which is a positive and finite number of microseconds.
  abbrev pub IsLifetime : Setting → ℕ → Type 0
  IsLifetime value t = Reads value (finite (pos t)) × (0 < t)

  -- An integer that no float reaches.
  abbrev pub IsTooLarge : Setting → Type 0
  IsTooLarge value = (n : ℤ) × (value ≡ integer n) × (float_of_int n ≡ none)

  -- What a setting asks for.
  pub data TtlOutcome : Setting → Result TtlError (Option ℕ) → Type 0 where
    unlimited : TtlOutcome absent (ok none)
    lasts : {value : Setting} {t : ℕ} → IsLifetime value t → TtlOutcome value (ok (some t))
    too_large : {value : Setting} → IsTooLarge value → TtlOutcome value (raise overflow)
    refused :
        {value : Setting}
        → value ≢ absent
        → ¬ IsTooLarge value
        → ((t : ℕ) → ¬ IsLifetime value t)
        → TtlOutcome value (raise invalid_ttl)

  -- A setting with at most one reading, `x`.
  read_once :
      (value : Setting) (x : Float)
      → Reads value x
      → ((y : Float) → Reads value y → x ≡ y)
      → value ≢ absent
      → ¬ IsTooLarge value
      → TtlOutcome value (positive x)
  read_once value (finite (pos n)) r once given small = elim (Bool-cases (ltb 0 n)) [
    | inl e ↦ rw e (lasts (r, ltb→lt 0 n e))
    | inr e ↦ rw e (
        refused given small
          λ t l. let same : n ≡ t = cc (once (finite (pos t)) l.0) in ground (arith, e, same, l.1))
  ]
  read_once value (finite (negsuc n)) r once given small =
      refused given small λ t l. let e = once (finite (pos t)) l.0 in absurd (cc)
  read_once value infinite r once given small =
      refused given small λ t l. let e = once (finite (pos t)) l.0 in absurd (cc)
  read_once value nan r once given small =
      refused given small λ t l. let e = once (finite (pos t)) l.0 in absurd (cc)

  -- A reading of a text comes from its last character and the rest.
  text_reading :
      (t : String) {value : Setting} {y : Float}
      → Reads value y
      → value ≡ text t
      → (m : String) × (unit : Char) × (scale : ℕ) × (x : Float) × (split_last t ≡ some (m, unit))
        × (unit_seconds unit ≡ some scale)
        × (float_of m ≡ some x)
        × (times x scale ≡ y)
  text_reading t (integer_reads e) h = absurd (cc)
  text_reading t real_reads h = absurd (cc)
  text_reading t (text_reads {m} {unit} {scale} {x} u f) h =
      let same : m +++ String.◌∷◌ unit String.[] ≡ t = cc in
      (
        m,
        unit,
        scale,
        x,
        rw (← same) (split_last-append m unit),
        HasSeconds-unit_seconds u,
        f,
        refl,
      )

  -- A text without a reading is refused.
  unread :
      (t : String) → ((y : Float) → ¬ Reads (text t) y) → TtlOutcome (text t) (raise invalid_ttl)
  unread t h = refused (λ e. cc) (λ (n, e, f). cc) (λ i l. h (finite (pos i)) l.0)

  magnitude-TtlOutcome :
      (t m : String) (unit : Char) (scale : ℕ) (o : Option Float)
      → split_last t ≡ some (m, unit)
      → unit_seconds unit ≡ some scale
      → float_of m ≡ o
      → TtlOutcome (text t) (from_magnitude float_of o scale)
  magnitude-TtlOutcome t m unit scale none s u f = unread t λ y r.
      let (m', unit', scale', x, s', u', f', e) = text_reading t r refl in
      let same : m ≡ m' = cc in let no : none ≡ some x = sym f ∙ ap float_of same ∙ f' in cc
  magnitude-TtlOutcome t m unit scale (some x) s u f =
      read_once (text t) (times x scale)
        (rw (split_last-joined t m unit s) (text_reads (unit_seconds-HasSeconds unit scale u) f))
        (λ y r.
          let (m', unit', scale', x', s', u', f', e) = text_reading t r refl in
          let same : m ≡ m' = cc in
          let units : unit ≡ unit' = cc in
          let scales : some scale ≡ some scale' = sym u ∙ ap unit_seconds units ∙ u' in
          let floats : some x ≡ some x' = sym f ∙ ap float_of same ∙ f' in cc)
        (λ e. cc) (λ (n, e, g). cc)

  unit-TtlOutcome :
      (t m : String) (unit : Char) (o : Option ℕ)
      → split_last t ≡ some (m, unit)
      → unit_seconds unit ≡ o
      → TtlOutcome (text t) (from_unit float_of m o)
  unit-TtlOutcome t m unit none s u = unread t λ y r.
      let (m', unit', scale, x, s', u', f, e) = text_reading t r refl in
      let units : unit ≡ unit' = cc in
      let no : none ≡ some scale = sym u ∙ ap unit_seconds units ∙ u' in cc
  unit-TtlOutcome t m unit (some scale) s u =
      magnitude-TtlOutcome t m unit scale (float_of m) s u refl

  text-TtlOutcome :
      (t : String) (o : Option (String × Char))
      → split_last t ≡ o
      → TtlOutcome (text t) (from_text float_of o)
  unfolding from_text
  text-TtlOutcome t none s =
      unread t λ y r. let (m, unit, scale, x, s', u, f, e) = text_reading t r refl in cc
  text-TtlOutcome t (some (m, unit)) s = unit-TtlOutcome t m unit (unit_seconds unit) s refl

  -- Readings of an integer and of a float.
  number_reading :
      (n : ℤ) {value : Setting} {y : Float}
      → Reads value y
      → value ≡ integer n
      → float_of_int n ≡ some y
  number_reading n (integer_reads {n = m} e) h = let same : m ≡ n = cc in rw (← same) e
  number_reading n real_reads h = absurd (cc)
  number_reading n (text_reads u f) h = absurd (cc)

  real_reading : (x : Float) {value : Setting} {y : Float} → Reads value y → value ≡ real x → x ≡ y
  real_reading x (integer_reads e) h = absurd (cc)
  real_reading x real_reads h = cc
  real_reading x (text_reads u f) h = absurd (cc)

  boolean_reading : (b : Bool) {value : Setting} {y : Float} → Reads value y → value ≢ boolean b
  boolean_reading b (integer_reads e) h = cc
  boolean_reading b real_reads h = cc
  boolean_reading b (text_reads u f) h = cc

  other_reading : {value : Setting} {y : Float} → Reads value y → value ≢ other
  other_reading (integer_reads e) h = cc
  other_reading real_reads h = cc
  other_reading (text_reads u f) h = cc

  integer-TtlOutcome :
      (n : ℤ) (o : Option Float)
      → float_of_int n ≡ o
      → TtlOutcome (integer n) (from_integer float_of o)
  integer-TtlOutcome n none e = too_large (n, refl, e)
  integer-TtlOutcome n (some x) e =
      read_once (integer n) x (integer_reads e) (λ y r. let f = number_reading n r refl in cc)
        (λ h. cc)
        (λ (m, same, f).
          let here : n ≡ m = cc in let no : some x ≡ none = sym e ∙ ap float_of_int here ∙ f in cc)

  -- `parse_ttl` returns no lifetime for `None` and only for it; the number of seconds that `float` reads
  -- of a number, or of what comes before the unit of a text times that unit, where it is positive and
  -- finite; it raises an `OverflowError` for an integer that no float reaches and only then; and an
  -- `InvalidTTLError` for all else and only then: for a Boolean, an object of another type, a text that
  -- has no unit or no numeral before it, and a number that is not positive or not finite.
  pub parse_ttl-TtlOutcome : (value : Setting) → TtlOutcome value (parse_ttl float_of value)
  unfolding parse_ttl
  parse_ttl-TtlOutcome absent = unlimited
  parse_ttl-TtlOutcome (boolean b) =
      refused (λ e. cc) (λ (n, e, f). cc) (λ t l. boolean_reading b l.0 refl)
  parse_ttl-TtlOutcome (integer n) = integer-TtlOutcome n (float_of_int n) refl
  parse_ttl-TtlOutcome (real x) =
      read_once (real x) x real_reads (λ y r. real_reading x r refl) (λ e. cc) (λ (n, e, f). cc)
  parse_ttl-TtlOutcome (text t) = text-TtlOutcome t (split_last t) refl
  parse_ttl-TtlOutcome other = refused (λ e. cc) (λ (n, e, f). cc) (λ t l. other_reading l.0 refl)

  -- A lifetime that is returned is positive.
  pub parse_ttl-positive :
      (value : Setting) (t : ℕ) → parse_ttl float_of value ≡ ok (some t) → 0 < t
  parse_ttl-positive value t h = asked (parse_ttl-TtlOutcome value) h
    where
      asked : {v : Setting} {r : _} → TtlOutcome v r → r ≡ ok (some t) → 0 < t
      asked unlimited e = absurd (cc)
      asked (lasts {t = s} l) e = let same : s ≡ t = cc in rw (← same) l.1
      asked (too_large l) e = absurd (cc)
      asked (refused a b c) e = absurd (cc)
