-- ===== src/Dependencies/Normalize.antt =====
-- src/cachau/dependencies.py: `normalize_dependencies`, the labels of a `depends_on=` declaration.
-- A descriptor is known here by what its `label()` returns.
use cachau.Prelude.Exec.{Result, ok, raise}
use cachau.Prelude.{
  ℕ, zero, suc, ◌+◌, ◌/◌, ◌%◌, String, List, [], ◌∷◌, Bool, true, false, Option, none, some, str_eq,
  ◌≡◌, refl, arith, inl, inr, ◌⊎◌, contains, length, ltb, ◌==◌, if◌then◌else◌, eq_iff, eq_refl,
}
use Prim.Native.String.{◌++◌ as ◌+++◌}

-- An entry of the list: a `str` or `os.PathLike`, a `Dependency`, or anything else.
pub data Spec : Type 0 where
  path : String → Spec
  descriptor : Option String → Spec
  unsupported : Spec

-- `depends_on=`: `None`, a bare string or something that is not iterable, or a list.
pub data DependsOn : Type 0 where
  nothing : DependsOn
  not_a_list : DependsOn
  entries : List Spec → DependsOn

pub data ConfigurationError : Type 0 where
  depends_on_not_a_list : ConfigurationError
  unsupported_entry : ConfigurationError
  duplicate_dependency : String → ConfigurationError

abbrev pub digit : ℕ → String
digit d =
    if d == 0
    then "0"
    else if d == 1
    then "1"
    else if d == 2
    then "2"
    else if d == 3
    then "3"
    else if d == 4
    then "4"
    else if d == 5
    then "5"
    else if d == 6
    then "6"
    else if d == 7
    then "7"
    else if d == 8
    then "8"
    else "9"

-- The decimal numeral, of at most as many digits as the fuel says.
unfoldable pub decimal : ℕ → ℕ → String
decimal zero n = digit (n % 10)
decimal (suc fuel) n =
    let rest = decimal fuel (n / 10) in if ltb n 10 then digit n else rest +++ digit (n % 10)

-- `dependency.label() or f"token[{index}]"`: an empty label is none.
unfoldable pub label_at : ℕ → Option String → String
unfolding decimal
label_at index none = "token[" +++ (decimal index index +++ "]")
label_at index (some label) =
    if str_eq label "" then "token[" +++ (decimal index index +++ "]") else label

-- The label that `_coerce(spec)` has.
unfoldable pub coerced_label : Spec → Result ConfigurationError (Option String)
coerced_label (path p) = ok (some ("file:" +++ p))
coerced_label (descriptor label) = ok label
coerced_label unsupported = raise unsupported_entry

-- One more label, unless it was seen.
abbrev pub add_label :
    String
    → Bool
    → Result ConfigurationError (List String)
    → Result ConfigurationError (List String)
add_label label true rest = raise (duplicate_dependency label)
add_label label false (ok labels) = ok (label ∷ labels)
add_label label false (raise e) = raise e

-- The loop, from the given index, with the labels seen so far.
unfoldable pub label_all : List Spec → ℕ → List String → Result ConfigurationError (List String)
unfolding label_at coerced_label
label_all [] index seen = ok []
label_all (spec ∷ specs) index seen = elim (coerced_label spec) [
  | raise e ↦ raise e
  | ok found ↦
      add_label (label_at index found) (contains seen (label_at index found))
        (label_all specs (index + 1) (label_at index found ∷ seen))
]

unfoldable pub normalize_dependencies : DependsOn → Result ConfigurationError (List String)
unfolding label_all
normalize_dependencies nothing = ok []
normalize_dependencies not_a_list = raise depends_on_not_a_list
normalize_dependencies (entries specs) = label_all specs 0 []

abbrev pub NoRepeat : List String → Type 0
NoRepeat [] = Unit
NoRepeat (label ∷ labels) = (contains labels label ≡ false) × NoRepeat labels

-- One label for each entry, none of them twice and none of them seen before.
pub record Labels (specs : List Spec) (seen labels : List String) : Type 0 where
  pub unseen : (k : String) → contains seen k ≡ true → contains labels k ≡ false
  pub distinct : NoRepeat labels
  pub complete : length labels ≡ length specs

add_label-Labels :
    (spec : Spec) (specs : List Spec) (label : String) (was_seen : Bool) (seen labels : List String)
    (rest : Result ConfigurationError (List String))
    → ((ls : List String) → rest ≡ ok ls → Labels specs (label ∷ seen) ls)
    → contains seen label ≡ was_seen
    → add_label label was_seen rest ≡ ok labels
    → Labels (spec ∷ specs) seen labels
unfolding contains
add_label-Labels spec specs label true seen labels rest h w q = cc
add_label-Labels spec specs label false seen labels (raise e) h w q = cc
add_label-Labels spec specs label false seen [] (ok ls) h w q = cc
add_label-Labels spec specs label false seen (l ∷ labels) (ok ls) h w q =
    let same : l ≡ label = ground arith in
    let below : Labels specs (label ∷ seen) labels = h labels (ground arith) in
    record {
      unseen = λ k e. ground (arith, below.unseen k, same, w, e, eq_iff l k, eq_iff label k);
      distinct = (ground (arith, below.unseen label, same, eq_refl label), below.distinct);
      complete = omega (arith, below.complete);
    }

Result-cases : {E A : Type 0} (r : Result E A) → ((a : A) × (r ≡ ok a)) ⊎ ((e : E) × (r ≡ raise e))
Result-cases (ok a) = inl (a, refl)
Result-cases (raise e) = inr (e, refl)

label_all-Labels :
    (specs : List Spec) (index : ℕ) (seen labels : List String)
    → label_all specs index seen ≡ ok labels
    → Labels specs seen labels
unfolding label_all contains
label_all-Labels [] index seen [] q = record {
  unseen = λ k e. refl;
  distinct = tt;
  complete = refl;
}
label_all-Labels [] index seen (l ∷ labels) q = cc
label_all-Labels (spec ∷ specs) index seen labels q = elim (Result-cases (coerced_label spec)) [
  | inl (found, e) ↦
      add_label-Labels spec specs (label_at index found) _ seen labels _
        (label_all-Labels specs (index + 1) (label_at index found ∷ seen)) refl (ground (arith, e))
  | inr (x, e) ↦ ground (arith, e)
]

-- A declaration that is accepted gives one label for each entry, and no label twice.
pub normalize_dependencies-Labels :
    (specs : List Spec) (labels : List String)
    → normalize_dependencies (entries specs) ≡ ok labels
    → Labels specs [] labels
unfolding normalize_dependencies
normalize_dependencies-Labels specs labels q = label_all-Labels specs 0 [] labels q
