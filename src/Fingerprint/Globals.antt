-- ===== src/Fingerprint/Globals.antt =====
-- src/cachau/fingerprint.py: `referenced_global_functions`, `_first_party_function` and
-- `_is_first_party_module`.
use cachau.Disk.Header.{ascii, same_bytes}
use cachau.Fingerprint.Chains.{Names, Instruction, all_code_names, attribute_chains}
use cachau.Fingerprint.Code.{Code}
use cachau.Fingerprint.Objects.{Heap, name_lt, dispatcher_parts}
use cachau.Fingerprint.Unique.{starts_with}
use cachau.Fingerprint.Unwrap.{unwrap}
use cachau.Keys.Framing.{Bytes}
use cachau.Keys.Values.{bytes_lt}
use cachau.Prelude.Sort.{sorted}
use cachau.Prelude.{
  ℕ, List, [], ◌∷◌, ◌++◌, map, Bool, true, false, ◌&&◌, ◌||◌, not, Option, none, some, ◌==◌,
  if◌then◌else◌,
}

-- What the interpreter says of modules and of the objects in them.
pub record Interpreter : Type 0 where
  pub instructions : Code → List Instruction
  -- `isinstance(value, types.ModuleType)`, and `getattr` on it, `none` where it raises
  pub is_module : ℕ → Bool
  pub attribute : ℕ → Bytes → Option ℕ
  -- `isinstance(value, types.FunctionType)`, and `__module__ or ""`
  pub is_function : ℕ → Bool
  pub module_name : ℕ → Bytes
  -- `__globals__`
  pub global : ℕ → Bytes → Option ℕ
  -- `sys.stdlib_module_names`, and `__file__` of a module in `sys.modules`
  pub is_stdlib : Bytes → Bool
  pub file : Bytes → Option Bytes
  -- `str.lower`
  pub lower : Bytes → Bytes

-- `name.split(".", 1)[0]`
unfoldable pub top_name : Bytes → Bytes
top_name [] = []
top_name (b ∷ bs) = let rest = top_name bs in if b == 46 then [] else b ∷ rest

-- `needle in text`
unfoldable pub occurs : Bytes → Bytes → Bool
unfolding starts_with
occurs needle [] = starts_with needle []
occurs needle (b ∷ bs) = starts_with needle (b ∷ bs) || occurs needle bs

-- `replace("\\", "/")`
abbrev pub slashes : Bytes → Bytes
slashes = map (λ b. if b == 92 then 47 else b)

-- `name` with `attrs` after dots
abbrev pub dotted : Bytes → List Bytes → Bytes
dotted name [] = name
dotted name (attr ∷ attrs) = dotted (name ++ (46 ∷ attr)) attrs

abbrev pub Found : Type 0
Found = List (Bytes × ℕ)

-- `found[label] = f`
unfoldable pub put_found : Found → Bytes → ℕ → Found
unfolding same_bytes
put_found [] label f = (label, f) ∷ []
put_found ((k, v) ∷ rest) label f =
    let further = put_found rest label f in
    if same_bytes k label then (label, f) ∷ rest else (k, v) ∷ further

abbrev pub put_if : Option ℕ → Bytes → Found → Found
put_if none label found = found
put_if (some f) label found = put_found found label f

abbrev pub chain_lt : Names → Names → Bool
chain_lt (a, as') (b, bs) = bytes_lt a b || (not (bytes_lt b a) && names_lt as' bs)
  where
    names_lt : List Bytes → List Bytes → Bool
    names_lt xs [] = false
    names_lt [] (y ∷ ys) = true
    names_lt (x ∷ xs) (y ∷ ys) = bytes_lt x y || (not (bytes_lt y x) && names_lt xs ys)

module _ (python : Interpreter) (heap : Heap) (fuel : ℕ) where
  -- The test of `__file__`
  unfoldable pub is_user_file : Option Bytes → Bool
  unfolding occurs
  is_user_file none = false
  is_user_file (some file) =
      not (occurs (ascii "site-packages") (python.lower (slashes file)))
      && not (occurs (ascii "dist-packages") (python.lower (slashes file)))

  unfoldable pub is_first_party_module : Bytes → Bool
  unfolding top_name is_user_file same_bytes
  is_first_party_module name =
      let top = top_name name in
      if same_bytes top [] || (same_bytes top (ascii "cachau") || python.is_stdlib top)
      then false
      else is_user_file (python.file top)

  -- A dispatcher's `py_func`
  abbrev pub undispatched : ℕ → ℕ
  undispatched f = elim (dispatcher_parts (heap f)) [ none ↦ f | some parts ↦ parts.0 ]

  -- For the function behind a value: a plain function, neither of the two, in a module of the user's.
  unfoldable pub plain_first_party : ℕ → ℕ → Bytes → ℕ → Option ℕ
  unfolding is_first_party_module same_bytes
  plain_first_party target func own_module f =
      if python.is_function f
        && (not (f == target)
            && (not (f == func)
                && (same_bytes (python.module_name f) own_module
                    || is_first_party_module (python.module_name f))))
      then some f
      else none

  unfoldable pub first_party_function : ℕ → ℕ → Bytes → Option ℕ → Option ℕ
  unfolding plain_first_party unwrap
  first_party_function target func own_module none = none
  first_party_function target func own_module (some value) =
      let resolved = unwrap heap fuel [] value in
      if (heap value).is_callable
      then elim resolved [
        | none ↦ none
        | some f ↦ plain_first_party target func own_module (undispatched f)
      ]
      else none

  -- The loop over the attributes of a chain: the label's parts, and where it came to.
  unfoldable pub follow : Option ℕ → List Bytes → List Bytes × Option ℕ
  follow none attrs = ([], none)
  follow (some current) [] = ([], some current)
  follow (some current) (attr ∷ attrs) =
      let (labels, last) = follow (python.attribute current attr) attrs in
      if python.is_module current
      then elim (python.attribute current attr) [
        | none ↦ ([], none)
        | some next ↦ (attr ∷ labels, last)
      ]
      else ([], some current)

  module _ (target func : ℕ) (own_module : Bytes) where
    unfoldable pub find_names : List Bytes → Found → Found
    unfolding first_party_function put_found
    find_names [] found = found
    find_names (name ∷ names) found = find_names names (
        put_if (first_party_function target func own_module (python.global target name)) name found)

    -- A global that is no module is passed over.
    unfoldable pub find_from : Option ℕ → Names → Found → Found
    unfolding follow first_party_function put_found
    find_from none chain found = found
    find_from (some root) (base, attrs) found =
        let (labels, last) = follow (some root) attrs in
        if python.is_module root
        then put_if (first_party_function target func own_module last) (dotted base labels) found
        else found

    abbrev pub find_chain : Names → Found → Found
    find_chain (base, attrs) found = find_from (python.global target base) (base, attrs) found

    unfoldable pub find_chains : List Names → Found → Found
    unfolding find_from
    find_chains [] found = found
    find_chains (chain ∷ chains) found = find_chains chains (find_chain chain found)

  abbrev pub found_in : ℕ → ℕ → Option Code → Found
  found_in target func none = []
  found_in target func (some c) = sorted name_lt (
      find_chains target func (python.module_name target)
        (sorted chain_lt (attribute_chains python.instructions c))
        (find_names target func (python.module_name target) (sorted bytes_lt (all_code_names c))
          []))

  unfoldable pub referenced_global_functions : ℕ → Found
  unfolding find_chains find_names sorted bytes_lt attribute_chains all_code_names
  referenced_global_functions func =
      found_in (undispatched func) func (heap (undispatched func)).code
