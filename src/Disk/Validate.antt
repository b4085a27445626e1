-- ===== src/Disk/Validate.antt =====
-- src/cachau/disk.py: the metadata that `set` writes, and its validation by `_entry_from_metadata`.
-- `none` stands for a raise, of any kind: the reader answers each with a miss.
use cachau.Backend.{CacheEntry}
use cachau.Disk.Json.{Json, null, integer, real, text, object, Members, no_members, member}
use cachau.Prelude.Dict.{Dict}
use cachau.Prelude.{
  second, ℕ, ◌*◌, String, [], ◌∷◌, Bool, true, false, Option, none, some, str_eq, ltb,
  if◌then◌else◌,
}
use cachau.Settings.Defs.{float_limit}

unfoldable pub find_member : String → Members → Option Json
find_member field no_members = none
find_member field (member name value members) =
    if str_eq name field then some value else find_member field members

-- `metadata[field]`, which raises on what is no dict, and where the field is missing.
unfoldable pub at_field : String → Json → Option Json
unfolding find_member
at_field field (object members) = find_member field members
at_field field _ = none

abbrev pub as_text : Option Json → Option String
as_text (some (text t)) = some t
as_text _ = none

unfoldable pub checked_str : Json → String → Option String
checked_str metadata field = as_text (at_field field metadata)

abbrev pub as_timestamp : Bool → Option Json → Option (Option ℕ)
as_timestamp optional none = none
as_timestamp optional (some null) = if optional then some none else none
as_timestamp optional (some (integer n)) =
    if ltb n float_limit then some (some (n * second)) else none
as_timestamp optional (some (real t)) = some (some t)
as_timestamp optional (some _) = none

unfoldable pub checked_timestamp : Json → String → Bool → Option (Option ℕ)
checked_timestamp metadata field optional = as_timestamp optional (at_field field metadata)

abbrev pub as_size : Option Json → Option (Option ℕ)
as_size none = none
as_size (some null) = some none
as_size (some (integer n)) = some (some n)
as_size (some _) = none

unfoldable pub checked_size : Json → String → Option (Option ℕ)
checked_size metadata field = as_size (at_field field metadata)

-- The dict, where every value is a `str`.
unfoldable pub text_members : Members → Option (Dict String)
text_members no_members = some []
text_members (member name (text value) members) = elim (text_members members) [
  | none ↦ none
  | some rest ↦ some ((name, value) ∷ rest)
]
text_members (member name _ rest) = none

-- What `metadata.get("dependency_fingerprints")` returned.
abbrev pub as_dependencies : Option Json → Option (Option (Dict String))
as_dependencies none = some none
as_dependencies (some null) = some none
as_dependencies (some (object members)) = elim (text_members members) [
  | none ↦ none
  | some d ↦ some (some d)
]
as_dependencies (some _) = none

unfoldable pub checked_dependencies : Json → Option (Option (Dict String))
unfolding text_members
checked_dependencies (object members) =
    as_dependencies (find_member "dependency_fingerprints" members)
checked_dependencies _ = none

unfoldable pub lenient_dependencies : Option Json → Option (Dict String)
unfolding text_members
lenient_dependencies (some (object members)) = text_members members
lenient_dependencies _ = none

-- `_optional_number(value, int)` and `_optional_number(value, float)`; of an integer that no float
-- reaches, `float` raises an `OverflowError`.
unfoldable pub optional_int : Option Json → Option ℕ
optional_int (some (integer n)) = some n
optional_int _ = none

unfoldable pub optional_float : Option Json → Option (Option ℕ)
optional_float (some (integer n)) = if ltb n float_limit then some (some (n * second)) else none
optional_float (some (real t)) = some (some t)
optional_float _ = some none

unfoldable pub members_of : Dict String → Members
members_of [] = no_members
members_of ((name, value) ∷ rest) = member name (text value) (members_of rest)

-- An optional number or map, as `json` writes it.
abbrev pub or_null : {A : Type 0} → (A → Json) → Option A → Json
or_null f none = null
or_null f (some a) = f a

module _ {V : Type 0} where
  abbrev pub make_entry :
      V
      → Option String
      → Option String
      → Option (Option ℕ)
      → Option (Option ℕ)
      → Option (Option ℕ)
      → Option (Option (Dict String))
      → Option (String × CacheEntry V)
  make_entry value (some key) (some namespace) (some (some created)) (some expires) (some size)
        (some dependencies) =
      some (
        key,
        record {
          value = value;
          namespace = namespace;
          created_at = created;
          expires_at = expires;
          size = size;
          dependency_fingerprints = dependencies;
        },
      )
  make_entry value _ _ _ _ _ _ = none

  unfoldable pub entry_from_metadata : Json → V → Option (String × CacheEntry V)
  unfolding checked_str checked_timestamp checked_size checked_dependencies at_field
  entry_from_metadata metadata value =
      make_entry value (checked_str metadata "key") (checked_str metadata "namespace")
        (checked_timestamp metadata "created_at" false)
        (checked_timestamp metadata "expires_at" true) (checked_size metadata "size")
        (checked_dependencies metadata)

  -- The `metadata` of `set`.
  unfoldable pub metadata_of : String → CacheEntry V → Json
  unfolding members_of
  metadata_of key entry = object (
      member "key" (text key) (
        member "namespace" (text entry.namespace) (
          member "created_at" (real entry.created_at) (
            member "expires_at" (or_null real entry.expires_at) (
              member "size" (or_null integer entry.size) (
                member "dependency_fingerprints"
                  (or_null (λ d. object (members_of d)) entry.dependency_fingerprints)
                  (member "serializer" (text "pickle") no_members)))))))
