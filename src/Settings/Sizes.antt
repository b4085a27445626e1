-- ===== src/Settings/Sizes.antt =====
-- src/cachau/sizes.py: `parse_size`. Floats are counted in millionths.
use cachau.Prelude.Exec.{Result, ok, raise}
use cachau.Prelude.Int.{ℤ, pos, negsuc}
use cachau.Prelude.{
  ℕ, ◌*◌, ◌+◌, ◌/◌, ◌<◌, String, List, [], ◌∷◌, Option, none, some, ltb, ◌≡◌, refl, if◌then◌else◌,
  ltb→lt, Bool-cases, inl, inr,
}
use cachau.Settings.Defs.{
  Float, finite, infinite, nan, Setting, absent, boolean, integer, real, text, other, negated,
  times, before_suffix, million,
}

pub data SizeError : Type 0 where
  invalid_size : SizeError

abbrev pub kilobyte : ℕ
kilobyte = 1024

-- `_UNIT_BYTES`, in the order in which the suffixes are tried.
abbrev pub unit_bytes : List (String × ℕ)
unit_bytes =
    ("KB", kilobyte)
    ∷ ("MB", kilobyte * kilobyte)
    ∷ ("GB", kilobyte * kilobyte * kilobyte)
    ∷ ("TB", kilobyte * kilobyte * kilobyte * kilobyte)
    ∷ ("B", 1)
    ∷ []

-- The first unit that the text ends with, with what stands before it.
unfoldable pub first_unit : String → List (String × ℕ) → Option (String × ℕ)
unfolding before_suffix
first_unit value [] = none
first_unit value ((unit, bytes) ∷ units) =
    let rest = first_unit value units in
    elim (before_suffix unit value) [ none ↦ rest | some magnitude ↦ some (magnitude, bytes) ]

-- `int` of a float; `none` stands for an `OverflowError` or a `ValueError`.
abbrev pub truncated : Float → Option ℤ
truncated (finite (pos n)) = some (pos (n / million))
truncated (finite (negsuc n)) = some (negated ((n + 1) / million))
truncated infinite = none
truncated nan = none

-- `if size <= 0: raise`
abbrev pub positive_size : ℤ → Result SizeError (Option ℕ)
positive_size (pos n) = if ltb 0 n then ok (some n) else raise invalid_size
positive_size (negsuc n) = raise invalid_size

abbrev pub limit_of : Option ℤ → Result SizeError (Option ℕ)
limit_of none = raise invalid_size
limit_of (some n) = positive_size n

-- `float` of a text, with `none` for a `ValueError`, and `str.upper`.
module _ (float_of : String → Option Float) (upper : String → String) where
  abbrev pub size_from_magnitude : Option Float → ℕ → Result SizeError (Option ℕ)
  size_from_magnitude none bytes = raise invalid_size
  size_from_magnitude (some x) bytes = limit_of (truncated (times x bytes))

  abbrev pub size_from_text : Option (String × ℕ) → Result SizeError (Option ℕ)
  size_from_text none = raise invalid_size
  size_from_text (some (magnitude, bytes)) = size_from_magnitude (float_of magnitude) bytes

  unfoldable pub parse_size : Setting → Result SizeError (Option ℕ)
  unfolding first_unit
  parse_size absent = ok none
  parse_size (boolean b) = raise invalid_size
  parse_size (integer n) = positive_size n
  parse_size (real x) = raise invalid_size
  parse_size (text t) = size_from_text (first_unit (upper t) unit_bytes)
  parse_size other = raise invalid_size

  -- What may come of a setting.
  abbrev pub SizeOutcome : Setting → Result SizeError (Option ℕ) → Type 0
  SizeOutcome value (ok none) = value ≡ absent
  SizeOutcome value (ok (some n)) = 0 < n
  SizeOutcome value (raise invalid_size) = Unit

  positive_size-SizeOutcome : (value : Setting) (n : ℤ) → SizeOutcome value (positive_size n)
  positive_size-SizeOutcome value (pos n) = elim (Bool-cases (ltb 0 n)) [
    | inl e ↦ rw e (ltb→lt 0 n e)
    | inr e ↦ rw e tt
  ]
  positive_size-SizeOutcome value (negsuc n) = tt

  limit_of-SizeOutcome : (value : Setting) (o : Option ℤ) → SizeOutcome value (limit_of o)
  limit_of-SizeOutcome value none = tt
  limit_of-SizeOutcome value (some n) = positive_size-SizeOutcome value n

  magnitude-SizeOutcome :
      (value : Setting) (o : Option Float) (bytes : ℕ)
      → SizeOutcome value (size_from_magnitude o bytes)
  magnitude-SizeOutcome value none bytes = tt
  magnitude-SizeOutcome value (some x) bytes =
      limit_of-SizeOutcome value (truncated (times x bytes))

  text-SizeOutcome :
      (value : Setting) (o : Option (String × ℕ)) → SizeOutcome value (size_from_text o)
  text-SizeOutcome value none = tt
  text-SizeOutcome value (some (magnitude, bytes)) =
      magnitude-SizeOutcome value (float_of magnitude) bytes

  -- `parse_size` returns no limit only for `None`, and else a positive one; it raises nothing but
  -- `InvalidSizeError`.
  pub parse_size-SizeOutcome : (value : Setting) → SizeOutcome value (parse_size value)
  unfolding parse_size
  parse_size-SizeOutcome absent = refl
  parse_size-SizeOutcome (boolean b) = tt
  parse_size-SizeOutcome (integer n) = positive_size-SizeOutcome (integer n) n
  parse_size-SizeOutcome (real x) = tt
  parse_size-SizeOutcome (text t) = text-SizeOutcome (text t) (first_unit (upper t) unit_bytes)
  parse_size-SizeOutcome other = tt
