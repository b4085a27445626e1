-- ===== src/Scenario/Declarations.antt =====
-- A `depends_on=` declaration with a file, a variable and a token without a name.
use cachau.Dependencies.Normalize
use cachau.Dependencies.Normalize.{
  Spec, path, descriptor, entries, Labels, normalize_dependencies, normalize_dependencies-Labels,
}
use cachau.Prelude.Exec.{ok}
use cachau.Prelude.{String, List, [], ◌∷◌, none, some, ◌≡◌, refl, contains}

abbrev declared : List Spec
declared = path "data.csv" ∷ descriptor (some "env:MODE") ∷ descriptor none ∷ []

abbrev the_labels : List String
the_labels = "file:data.csv" ∷ "env:MODE" ∷ "token[2]" ∷ []

labelled : normalize_dependencies (entries declared) ≡ ok the_labels
unfolding Normalize.normalize_dependencies contains
labelled = refl

normalize_dependencies-Labels_example : Labels declared [] the_labels
normalize_dependencies-Labels_example = normalize_dependencies-Labels declared the_labels labelled
