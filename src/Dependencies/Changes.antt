-- ===== src/Dependencies/Changes.antt =====
-- src/cachau/dependencies.py: `changed_labels`, the labels whose fingerprint differs.
use cachau.Prelude.Dict.{Dict, lookup, keys}
use cachau.Prelude.Sort.{insort, sorted}
use cachau.Prelude.{
  String, List, [], ◌∷◌, ◌++◌, Bool, true, false, ◌&&◌, ◌||◌, not, Option, none, some, str_eq, ◌≡◌,
  refl, arith, eq_iff, is_some, contains, contains-append, if◌then◌else◌,
}
use Prim.Native.String.{compare}
use Prim.Native.Nat.{Ordering}

-- Python's `<` on strings: by code points.
unfoldable pub str_lt : String → String → Bool
str_lt a b = elim (compare a b) [ Ordering.lt ↦ true | _ ↦ false ]

-- `stored or {}`
abbrev pub or_empty : Option (Dict String) → Dict String
or_empty none = []
or_empty (some d) = d

-- `==` on two values of type `str | None`
abbrev pub same_option : Option String → Option String → Bool
same_option none none = true
same_option none (some b) = false
same_option (some a) none = false
same_option (some a) (some b) = str_eq a b

-- The labels for which the test holds.
unfoldable pub labels_where : (String → Bool) → List String → List String
labels_where p [] = []
labels_where p (label ∷ labels) =
    let rest = labels_where p labels in if p label then label ∷ rest else rest

-- `stored.keys() | current.keys()`, in some order
unfoldable pub all_labels : Dict String → Dict String → List String
unfolding labels_where
all_labels c d = keys c ++ labels_where (λ label. not (is_some (lookup label c))) (keys d)

unfoldable pub differs : Dict String → Dict String → String → Bool
differs c d label = not (same_option (lookup label c) (lookup label d))

unfoldable pub changed_labels : Option (Dict String) → Option (Dict String) → List String
unfolding sorted labels_where
changed_labels stored current =
    let c = or_empty stored in
    let d = or_empty current in sorted str_lt (labels_where (differs c d) (all_labels c d))

contains-insort :
    (x k : String) (l : List String) → contains (insort str_lt x l) k ≡ str_eq x k || contains l k
unfolding insort contains
contains-insort x k [] = refl
contains-insort x k (y ∷ ys) = ground (arith, contains-insort x k ys)

contains-sorted : (k : String) (l : List String) → contains (sorted str_lt l) k ≡ contains l k
unfolding sorted contains
contains-sorted k [] = refl
contains-sorted k (x ∷ l) = rw (contains-insort x k (sorted str_lt l), contains-sorted k l) refl

contains-labels_where :
    (p : String → Bool) (k : String) (l : List String)
    → contains (labels_where p l) k ≡ p k && contains l k
unfolding labels_where contains
contains-labels_where p k [] = ground arith
contains-labels_where p k (j ∷ l) = ground (arith, contains-labels_where p k l, eq_iff j k)

contains-keys : (k : String) (d : Dict String) → contains (keys d) k ≡ is_some (lookup k d)
unfolding contains lookup
contains-keys k [] = refl
contains-keys k ((j, v) ∷ d) = ground (arith, contains-keys k d)

contains-all_labels :
    (k : String) (c d : Dict String)
    → contains (all_labels c d) k ≡ is_some (lookup k c) || is_some (lookup k d)
unfolding all_labels
contains-all_labels k c d = ground (
  arith,
  contains-append (keys c) (labels_where (λ label. not (is_some (lookup label c))) (keys d)) k,
  contains-labels_where (λ label. not (is_some (lookup label c))) k (keys d),
  contains-keys k c,
  contains-keys k d,
)

same_nothing :
    (a b : Option String)
    → not (same_option a b) && (is_some a || is_some b) ≡ not (same_option a b)
same_nothing none none = refl
same_nothing none (some b) = refl
same_nothing (some a) none = refl
same_nothing (some a) (some b) = ground arith

-- A label is reported as changed exactly where its stored and its current fingerprint differ, an
-- absent one being a value of its own; a missing collection counts as an empty one.
pub contains-changed_labels :
    (stored current : Option (Dict String)) (label : String)
    → contains (changed_labels stored current) label
      ≡ not (same_option (lookup label (or_empty stored)) (lookup label (or_empty current)))
unfolding changed_labels differs
contains-changed_labels stored current label =
    rw
      (
        contains-sorted label (labels_where (differs c d) (all_labels c d)),
        contains-labels_where (differs c d) label (all_labels c d),
        contains-all_labels label c d,
      )
      (same_nothing (lookup label c) (lookup label d))
  where
    c : Dict String
    c = or_empty stored

    d : Dict String
    d = or_empty current
