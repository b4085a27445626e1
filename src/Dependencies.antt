-- ===== src/Dependencies.antt =====
-- src/cachau/dependencies.py: fingerprints of the declared dependencies.
-- A dependency is known here by its label; what its `fingerprint()` returns or raises is the world's.
pub mod Changes
pub mod Normalize
pub mod Descriptors
pub mod Readback
pub mod Unchanged
use cachau.Prelude.Dict.{Dict, lookup, insert}
use cachau.Prelude.Exec.{Exec, pure, ◌>>=◌}
use cachau.Prelude.{
  String, List, [], ◌∷◌, Bool, true, false, ◌&&◌, Option, none, some, str_eq, length, ◌==◌,
}

module _ {E S : Type 0} (fingerprint : String → Exec E S String) where
  -- The dict comprehension of `fingerprint_dependencies`.
  unfoldable pub fingerprint_all : List String → Dict String → Exec E S (Dict String)
  fingerprint_all [] done = pure done
  fingerprint_all (label ∷ labels) done = do
    f ← fingerprint label
    fingerprint_all labels (insert label f done)

  unfoldable pub fingerprint_dependencies : List String → Exec E S (Option (Dict String))
  fingerprint_dependencies [] = pure none
  fingerprint_dependencies (label ∷ labels) = do
    fingerprints ← fingerprint_all (label ∷ labels) []
    pure (some fingerprints)

abbrev pub same_value : Option String → String → Bool
same_value none v = false
same_value (some w) v = str_eq w v

-- Every item of the first dict is an item of the second.
unfoldable pub included : Dict String → Dict String → Bool
included [] d = true
included ((k, v) ∷ c) d = same_value (lookup k d) v && included c d

-- Python's `==` on two values of type `dict[str, str] | None`.
unfoldable pub same_fingerprints : Option (Dict String) → Option (Dict String) → Bool
same_fingerprints none none = true
same_fingerprints none (some d) = false
same_fingerprints (some c) none = false
same_fingerprints (some c) (some d) = (length c == length d) && included c d
