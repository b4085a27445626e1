-- ===== src/Fingerprint/Objects.antt =====
-- src/cachau/fingerprint.py: what an object shows of itself, and `_dispatcher_parts`.
use cachau.Disk.Header.{ascii, same_bytes}
use cachau.Fingerprint.Code.{Code}
use cachau.Keys.Framing.{Bytes}
use cachau.Keys.Values.{Value, bytes_lt}
use cachau.Prelude.Sort.{sorted}
use cachau.Prelude.{
  ℕ, List, [], ◌∷◌, Bool, false, ◌||◌, Option, none, some, is_some, ◌==◌, if◌then◌else◌,
}

-- A compile option's value: a set of flags by the texts of its members, any other by its `repr`.
pub data OptionValue : Type 0 where
  single : Bytes → OptionValue
  flags : List Bytes → OptionValue

-- What the code reads of an object. A reference is an object's `id`.
pub record Object : Type 0 where
  -- `__code__`
  pub code : Option Code
  -- `__closure__`, a cell that is not bound being `none`
  pub closure : List (Option ℕ)
  pub defaults : List ℕ
  pub kwdefaults : List (Bytes × ℕ)
  pub wrapped : Option ℕ
  -- `py_func`, where it is callable
  pub py_func : Option ℕ
  -- `targetoptions`, where it is a dict
  pub options : Option (List (Bytes × OptionValue))
  -- `locals`, each value as a text, empty where it is not a dict
  pub locals : List (Bytes × Bytes)
  pub is_callable : Bool
  pub type_name : Bytes
  -- what `_digest_value` takes it for
  pub value : Value

abbrev pub Heap : Type 0
Heap = ℕ → Object

abbrev pub parts :
    Option ℕ → Option (List (Bytes × OptionValue)) → Option (ℕ × List (Bytes × OptionValue))
parts (some func) (some options) = some (func, options)
parts (some func) none = none
parts none options = none

abbrev pub dispatcher_parts : Object → Option (ℕ × List (Bytes × OptionValue))
dispatcher_parts o = parts o.py_func o.options

abbrev pub is_jit_dispatcher : Object → Bool
is_jit_dispatcher o = is_some (dispatcher_parts o)

abbrev pub semantic_target_options : List Bytes
semantic_target_options =
    ascii "boundscheck"
    ∷ ascii "error_model"
    ∷ ascii "fastmath"
    ∷ ascii "forceobj"
    ∷ ascii "nopython"
    ∷ ascii "parallel"
    ∷ []

-- A set's members in order
unfoldable pub stable_option_value : OptionValue → OptionValue
unfolding sorted bytes_lt
stable_option_value (single repr) = single repr
stable_option_value (flags items) = flags (sorted bytes_lt items)

unfoldable pub find : Bytes → List (Bytes × OptionValue) → Option OptionValue
unfolding same_bytes
find name [] = none
find name ((k, v) ∷ rest) =
    let found = find name rest in if same_bytes k name then some v else found

unfoldable pub relevant_options :
    List Bytes → List (Bytes × OptionValue) → List (Bytes × OptionValue)
unfolding stable_option_value find
relevant_options [] options = []
relevant_options (name ∷ names) options =
    let rest = relevant_options names options in
    elim (find name options) [ none ↦ rest | some v ↦ (name, stable_option_value v) ∷ rest ]

abbrev pub name_lt {ℓ} : {A : Type ℓ} → Bytes × A → Bytes × A → Bool
name_lt (a, x) (b, y) = bytes_lt a b

abbrev pub has : List ℕ → ℕ → Bool
has [] i = false
has (j ∷ seen) i = (j == i) || has seen i
