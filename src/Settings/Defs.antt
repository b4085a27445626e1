-- ===== src/Settings/Defs.antt =====
-- Values of settings, and what Python's own functions do with them.
use Prim.Native.Char.{Char}
use cachau.Prelude.Int.{ℤ, pos, negsuc}
use cachau.Prelude.{
  ◌^◌, ◌-◌, ltb, ℕ, ◌*◌, ◌+◌, String, Bool, Option, none, some, str_eq, if◌then◌else◌,
}

-- A float, as an integral number of some unit: the precision of floats is left out, and so is the
-- sign of an infinity.
pub data Float : Type 0 where
  finite : ℤ → Float
  infinite : Float
  nan : Float

pub data Setting : Type 0 where
  absent : Setting
  boolean : Bool → Setting
  integer : ℤ → Setting
  real : Float → Setting
  text : String → Setting
  -- a value of any other type
  other : Setting

-- `-n`
abbrev pub negated : ℕ → ℤ
negated ℕ.zero = pos 0
negated (ℕ.suc n) = negsuc n

-- An integer times a natural number.
abbrev pub scaled : ℤ → ℕ → ℤ
scaled (pos n) k = pos (n * k)
scaled (negsuc n) k = negated ((n + 1) * k)

-- The unit of a float in a duration or a size.
abbrev pub million : ℕ
million = 1_000_000

-- From here on, a number is beyond the floats.
unfoldable pub float_limit : ℕ
float_limit = 2 ^ 1024 - 2 ^ 970

-- A number of millionths as a float.
unfoldable pub in_range : ℤ → Float
unfolding float_limit
in_range (pos n) = if ltb n (float_limit * million) then finite (pos n) else infinite
in_range (negsuc n) = if ltb n (float_limit * million) then finite (negsuc n) else infinite

-- `x * k`
abbrev pub times : Float → ℕ → Float
times (finite n) k = in_range (scaled n k)
times infinite k = infinite
times nan k = nan

-- `float(n)`, with `none` for an `OverflowError`
unfoldable pub float_of_int : ℤ → Option Float
unfolding float_limit
float_of_int (pos n) = if ltb n float_limit then some (finite (pos (n * million))) else none
float_of_int (negsuc n) =
    if ltb (n + 1) float_limit then some (finite (negated ((n + 1) * million))) else none

-- The text without its last character, and that character.
unfoldable pub split_last : String → Option (String × Char)
split_last String.[] = none
split_last (String.◌∷◌ c s) = elim (split_last s) [
  | none ↦ some (String.[], c)
  | some (t, d) ↦ some (String.◌∷◌ c t, d)
]

-- `text[:-len(suffix)]`, where `text.endswith(suffix)`.
unfoldable pub before_suffix : String → String → Option String
before_suffix suffix String.[] = if str_eq String.[] suffix then some String.[] else none
before_suffix suffix (String.◌∷◌ c s) =
    let rest = before_suffix suffix s in
    if str_eq (String.◌∷◌ c s) suffix
    then some String.[]
    else elim rest [ none ↦ none | some t ↦ some (String.◌∷◌ c t) ]
