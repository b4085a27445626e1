-- ===== src/Fingerprint/Chains.antt =====
-- src/cachau/fingerprint.py: `_attribute_chains`, `_walk_code` and `_all_code_names`.
-- A set is the list of what was added to it.
use cachau.Fingerprint.Code.{Code, code, Entries, no_entries, plain, nested}
use cachau.Keys.Framing.{Bytes}
use cachau.Prelude.{List, [], ◌∷◌, ◌++◌, Option, none, some, ◌≡◌, refl, sym, ap, ◌∙◌}
use mathlib.Core.List.{append_assoc, append-nil}

-- What `dis.get_instructions` yields, told apart as far as the loop does.
pub data Instruction : Type 0 where
  load_global : Bytes → Instruction
  -- `LOAD_ATTR` or `LOAD_METHOD`
  load_attr : Bytes → Instruction
  other : Instruction

abbrev pub Names : Type 0
Names = Bytes × List Bytes

abbrev pub flush : Option Bytes → List Bytes → List Names
flush none attrs = []
flush (some base) [] = []
flush (some base) (attr ∷ attrs) = (base, attr ∷ attrs) ∷ []

abbrev pub extend : Option Bytes → List Bytes → Bytes → List Bytes
extend none attrs attr = attrs
extend (some base) attrs attr = attrs ++ (attr ∷ [])

-- The loop over the instructions of one code object.
unfoldable pub scan : Option Bytes → List Bytes → List Instruction → List Names
scan base attrs [] = flush base attrs
scan base attrs (load_global name ∷ rest) = flush base attrs ++ scan (some name) [] rest
scan base attrs (load_attr name ∷ rest) = scan base (extend base attrs name) rest
scan base attrs (other ∷ rest) = flush base attrs ++ scan none [] rest

unfoldable mutual
  pub walk_code : Code → List Code
  walk_code (code layout co_code names varnames free consts) =
      code layout co_code names varnames free consts ∷ walk_consts consts

  pub walk_consts : Entries → List Code
  walk_consts no_entries = []
  walk_consts (plain c rest) = walk_consts rest
  walk_consts (nested c rest) = walk_code c ++ walk_consts rest

unfoldable mutual
  pub all_code_names : Code → List Bytes
  all_code_names (code layout co_code names varnames free consts) = names ++ names_in consts

  pub names_in : Entries → List Bytes
  names_in no_entries = []
  names_in (plain c rest) = names_in rest
  names_in (nested c rest) = all_code_names c ++ names_in rest

unfoldable pub scan_all : (Code → List Instruction) → List Code → List Names
unfolding scan
scan_all instructions [] = []
scan_all instructions (c ∷ cs) = scan none [] (instructions c) ++ scan_all instructions cs

unfoldable pub attribute_chains : (Code → List Instruction) → Code → List Names
unfolding scan_all walk_code
attribute_chains instructions c = scan_all instructions (walk_code c)

-- The attributes that are loaded one after another from here on.
abbrev pub leading : List Instruction → List Bytes
leading (load_attr name ∷ rest) = name ∷ leading rest
leading _ = []

-- Wherever a global is loaded, it and the longest run of attributes loaded right after it.
abbrev pub chains_at : List Instruction → List Names
chains_at [] = []
chains_at (load_global name ∷ rest) = flush (some name) (leading rest) ++ chains_at rest
chains_at (load_attr name ∷ rest) = chains_at rest
chains_at (other ∷ rest) = chains_at rest

mutual
  unfolding scan

  within :
      (base : Bytes) (attrs : List Bytes) (l : List Instruction)
      → scan (some base) attrs l ≡ flush (some base) (attrs ++ leading l) ++ chains_at l
  within base attrs [] = rw (append-nil attrs) (sym (append-nil (flush (some base) attrs)))
  within base attrs (load_global name ∷ rest) =
      rw (append-nil attrs) (ap (λ x. flush (some base) attrs ++ x) (within name [] rest))
  within base attrs (load_attr name ∷ rest) =
      within base (attrs ++ (name ∷ [])) rest
      ∙ ap (λ x. flush (some base) x ++ chains_at rest)
          (append_assoc attrs (name ∷ []) (leading rest))
  within base attrs (other ∷ rest) =
      rw (append-nil attrs) (ap (λ x. flush (some base) attrs ++ x) (outside rest))

  outside : (l : List Instruction) → scan none [] l ≡ chains_at l
  outside [] = refl
  outside (load_global name ∷ rest) = within name [] rest
  outside (load_attr name ∷ rest) = outside rest
  outside (other ∷ rest) = outside rest

abbrev pub chains_in : (Code → List Instruction) → List Code → List Names
chains_in instructions [] = []
chains_in instructions (c ∷ cs) = chains_at (instructions c) ++ chains_in instructions cs

all_outside :
    (instructions : Code → List Instruction) (cs : List Code)
    → scan_all instructions cs ≡ chains_in instructions cs
unfolding scan_all
all_outside instructions [] = refl
all_outside instructions (c ∷ cs) =
    ap (λ x. x ++ scan_all instructions cs) (outside (instructions c))
    ∙ ap (λ x. chains_at (instructions c) ++ x) (all_outside instructions cs)

-- The one pass over the instructions with its `flush` finds, in a code object and all those nested in
-- it, exactly each global with the longest run of attributes loaded right after it, where there is
-- one: any other instruction ends the run, and an attribute of anything else starts none.
pub attribute_chains-chains_at :
    (instructions : Code → List Instruction) (c : Code)
    → attribute_chains instructions c ≡ chains_in instructions (walk_code c)
unfolding attribute_chains
attribute_chains-chains_at instructions c = all_outside instructions (walk_code c)
