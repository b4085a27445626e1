-- ===== src/Settings/Durations.antt =====
-- src/cachau/durations.py: `parse_ttl`. Floats are counted in microseconds.
use Prim.Native.Char.{Char, code}
use Prim.Native.String.{◌++◌ as ◌+++◌}
use cachau.Prelude.Exec.{Result, ok, raise}
use cachau.Prelude.Int.{ℤ, pos, negsuc}
use cachau.Prelude.{
  ℕ, ◌*◌, ◌<◌, String, Bool, ◌≢◌, sym, ap, ◌∙◌, Option, none, some, ◌==◌, ltb, ◌≡◌, refl, arith,
  if◌then◌else◌, ltb→lt, lt→ltb, Bool-cases, inl, inr, Option-cases,
}
use native.Mathlib.Nat.{mul-pos}
use package.text.Mathlib.TextLemmas.{nil-append, cons-append}
use cachau.Settings.Defs.{
  float_of_int, in_range, float_limit, million, Float, finite, infinite, nan, Setting, absent,
  boolean, integer, real, text, other, times, split_last,
}
mod Texts
pub mod Outcome

pub data TtlError : Type 0 where
  invalid_ttl : TtlError
  -- `float` of an integer that no float reaches
  overflow : TtlError

-- `_UNIT_SECONDS.get`
unfoldable pub unit_seconds : Char → Option ℕ
unit_seconds c =
    if code c == b's'
    then some 1
    else if code c == b'm'
    then some 60
    else if code c == b'h'
    then some 3600
    else if code c == b'd'
    then some 86_400
    else none

pub split_last-append :
    (m : String) (c : Char) → split_last (m +++ String.◌∷◌ c String.[]) ≡ some (m, c)
unfolding split_last
split_last-append String.[] c = rw (nil-append (String.◌∷◌ c String.[])) refl
split_last-append (String.◌∷◌ d m) c =
    rw (cons-append d m (String.◌∷◌ c String.[])) (rw (split_last-append m c, split_last) refl)

-- `if not math.isfinite(seconds) or seconds <= 0: raise`
abbrev pub positive : Float → Result TtlError (Option ℕ)
positive (finite (pos n)) = if ltb 0 n then ok (some n) else raise invalid_ttl
positive (finite (negsuc n)) = raise invalid_ttl
positive infinite = raise invalid_ttl
positive nan = raise invalid_ttl

-- `float` of a text, with `none` for a `ValueError`.
module _ (float_of : String → Option Float) where
  abbrev pub from_magnitude : Option Float → ℕ → Result TtlError (Option ℕ)
  from_magnitude none scale = raise invalid_ttl
  from_magnitude (some x) scale = positive (times x scale)

  abbrev pub from_unit : String → Option ℕ → Result TtlError (Option ℕ)
  from_unit magnitude none = raise invalid_ttl
  from_unit magnitude (some scale) = from_magnitude (float_of magnitude) scale

  abbrev pub from_text : Option (String × Char) → Result TtlError (Option ℕ)
  unfolding unit_seconds
  from_text none = raise invalid_ttl
  from_text (some (magnitude, unit)) = from_unit magnitude (unit_seconds unit)

  abbrev pub from_integer : Option Float → Result TtlError (Option ℕ)
  from_integer none = raise overflow
  from_integer (some x) = positive x

  unfoldable pub parse_ttl : Setting → Result TtlError (Option ℕ)
  unfolding split_last from_text float_of_int
  parse_ttl absent = ok none
  parse_ttl (boolean b) = raise invalid_ttl
  parse_ttl (integer n) = from_integer (float_of_int n)
  parse_ttl (real x) = positive x
  parse_ttl (text t) = from_text (split_last t)
  parse_ttl other = raise invalid_ttl

  unit_seconds-pos : (c : Char) (k : ℕ) → unit_seconds c ≡ some k → 0 < k
  unfolding unit_seconds
  unit_seconds-pos c k h = ground (arith, h)

  in_range-small : (n : ℕ) → n < float_limit * million → in_range (pos n) ≡ finite (pos n)
  unfolding in_range
  in_range-small n h = rw (lt→ltb n (float_limit * million) h) refl

  -- A magnitude that `float` reads as a positive number, followed by a unit, is that many units,
  -- while the product is within the floats.
  pub parse_ttl-unit_seconds :
      (m : String) (unit : Char) (n scale : ℕ)
      → float_of m ≡ some (finite (pos n))
      → 0 < n
      → unit_seconds unit ≡ some scale
      → n * scale < float_limit * million
      → parse_ttl (text (m +++ String.◌∷◌ unit String.[])) ≡ ok (some (n * scale))
  unfolding parse_ttl
  parse_ttl-unit_seconds m unit n scale h l u small =
      let more : 0 < n * scale = mul-pos l (unit_seconds-pos unit scale u) in
      rw (split_last-append m unit, u, h, in_range-small (n * scale) small) (ground (arith, more))
