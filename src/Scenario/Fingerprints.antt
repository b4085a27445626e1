-- ===== src/Scenario/Fingerprints.antt =====
-- A function that captures itself and has a function for a default, its code with a nested code
-- object, and a helper called through a module.
use cachau.Disk.Header.{ascii}
use cachau.Fingerprint.Canonical.{
  same_collection, same_tuple, exchange, item, no_items, canonical_const-SameConstant,
}
use cachau.Fingerprint.Chains.{
  Instruction, load_global, load_attr, other, attribute_chains, chains_in, walk_code,
  attribute_chains-chains_at,
}
use cachau.Fingerprint.Code.{
  literal, collection, tuple, Constants, no_constants, constant, Layout, Code, code, no_entries,
  plain, nested, feed_code, canonical_const,
}
use cachau.Fingerprint.Depth.{IsClosed}
use cachau.Fingerprint.Functions.{Primitives, function_fingerprint, out_of_fuel}
use cachau.Fingerprint.Globals.{Interpreter, referenced_global_functions, undispatched}
use cachau.Fingerprint.Objects.{Heap}
use cachau.Fingerprint.Reported.{IsReported, referenced_global_functions-IsReported}
use cachau.Fingerprint.Termination.{fingerprint_ends}
use cachau.Fingerprint.Unique.{IsCode, SameListing, SameEntries, SameListing-feed_code}
use cachau.Fingerprint.Unwrap.{unwrap, Chain, IsLast, unwrap-IsLast}
use cachau.Fingerprint.Names.{IsName}
use cachau.Keys.Framing.{Bytes, Excludes}
use cachau.Keys.Values.{frozenset, unsupported}
use cachau.Prelude.Exec.{ok, raise}
use cachau.Prelude.{
  ℕ, List, [], ◌∷◌, ◌++◌, true, false, not, none, some, ◌==◌, Bool, ◌&&◌, ◌≡◌, ◌≢◌, refl, sym,
  arith, All, length,
}

-- `def g(a, b)`
abbrev by_position : Layout
by_position = record {
  co_argcount = 2;
  co_posonlyargcount = 0;
  co_kwonlyargcount = 0;
  co_flags = 3;
}

-- `def g(a, *b)`
abbrev with_star : Layout
with_star = record by_position { co_argcount = 1; co_flags = 7 }

abbrev inner : Code
inner = code by_position (1 ∷ []) [] [] [] (plain (literal (ascii "None")) no_entries)

abbrev pub outer : Code
outer =
    code by_position (2 ∷ 3 ∷ []) (ascii "mod" ∷ ascii "helper" ∷ []) (ascii "x" ∷ [])
      (ascii "f" ∷ []) (plain (literal (ascii "1")) (nested inner no_entries))

-- The same text with `(a, *b)` for `(a, b)` is another function, and it is fed the same bytes.
abbrev starred : Code
starred =
    code with_star (2 ∷ 3 ∷ []) (ascii "mod" ∷ ascii "helper" ∷ []) (ascii "x" ∷ [])
      (ascii "f" ∷ []) (plain (literal (ascii "1")) (nested inner no_entries))

layout_unread : (hash : Bytes → Bytes) → feed_code hash outer ≡ feed_code hash starred
unfolding SameListing SameEntries
layout_unread hash =
    SameListing-feed_code hash outer starred
      (refl, refl, refl, (refl, ((refl, refl, refl, (refl, tt)), tt)))

abbrev without_comma : Bytes → Bool
without_comma [] = true
without_comma (b ∷ bs) = not (b == 44) && without_comma bs

no_commas : (b : Bytes) → without_comma b ≡ true → Excludes 44 b
no_commas [] h = tt
no_commas (b ∷ bs) h = ((λ e. ground (arith, h, e)), no_commas bs (ground (arith, h)))

identifier : (x : ℕ) (b : Bytes) → without_comma (x ∷ b) ≡ true → IsName (x ∷ b)
identifier x b h = ((λ e. cc), no_commas (x ∷ b) h)

pub outer-IsCode : IsCode outer
unfolding IsCode
outer-IsCode = (
  (identifier 109 (ascii "od") refl, (identifier 104 (ascii "elper") refl, tt)),
  (identifier 120 [] refl, tt),
  ((tt, tt, tt), tt),
)

abbrev stream : Bytes
stream = feed_code (λ b. b) outer

abbrev one_order : Constants
one_order = constant (literal (ascii "'b'")) (constant (literal (ascii "'a'")) no_constants)

abbrev other_order : Constants
other_order = constant (literal (ascii "'a'")) (constant (literal (ascii "'b'")) no_constants)

canonical_const-SameConstant_example :
    canonical_const (tuple (constant (collection frozenset one_order) no_constants))
    ≡ canonical_const (tuple (constant (collection frozenset other_order) no_constants))
canonical_const-SameConstant_example =
    canonical_const-SameConstant (tuple (constant (collection frozenset one_order) no_constants))
      (tuple (constant (collection frozenset other_order) no_constants))
      (same_tuple (item (same_collection frozenset exchange) no_items))

abbrev prim : Primitives
prim = record { hash = λ b. b; hexdigest = λ b. b; repr_options = λ o. []; repr_locals = λ o. [] }

-- Every object is a function that captures object 1, has object 2 for a default and wraps it.
abbrev pub heap : Heap
heap i = record {
  code = some outer;
  closure = some 1 ∷ [];
  defaults = 2 ∷ [];
  kwdefaults = [];
  wrapped = some 2;
  py_func = none;
  options = none;
  locals = [];
  is_callable = true;
  type_name = ascii "function";
  value = unsupported;
}

abbrev universe : List ℕ
universe = 1 ∷ 2 ∷ []

heap-IsClosed : IsClosed universe heap
heap-IsClosed = record {
  cells = λ i m. ((λ j e. let f : 1 ≡ j = cc in rw (sym f) refl), tt);
  defaults = λ i m. (refl, tt);
  kwdefaults = λ i m. tt;
  py_func = λ i j m e. cc;
}

fingerprint_ends_example : function_fingerprint prim heap (length universe) 1 ≢ raise out_of_fuel
fingerprint_ends_example = fingerprint_ends prim heap universe 1 heap-IsClosed refl

abbrev digest : Bytes
digest =
    stream
    ++ ascii "|closure:f=<function:recursive>|defaults:0=<function:"
    ++ stream
    ++ ascii "|closure:f=<function:recursive>|defaults:0=<function:recursive>>"

digested : function_fingerprint prim heap 2 1 ≡ ok digest
unfolding function_fingerprint
digested = refl

unwrap-IsLast_example :
    (last : ℕ) × (unwrap heap 3 [] 1 ≡ some last) × Chain heap 1 last × IsLast heap last
unwrap-IsLast_example =
    unwrap-IsLast heap universe (λ i j m e. let f : 2 ≡ j = cc in rw (sym f) refl) 1 refl

abbrev instructions : Code → List Instruction
instructions c =
    load_global (ascii "mod")
    ∷ load_attr (ascii "helper")
    ∷ other
    ∷ load_attr (ascii "bit_length")
    ∷ []

attribute_chains-chains_at_example :
    attribute_chains instructions outer ≡ chains_in instructions (walk_code outer)
attribute_chains-chains_at_example = attribute_chains-chains_at instructions outer

-- The same functions, wrapping none.
abbrev unwrapped : Heap
unwrapped i = record (heap i) { wrapped = none }

-- Object 3 is the module `mod`, whose `helper` is object 4.
abbrev python : Interpreter
python = record {
  instructions = instructions;
  is_module = λ i. i == 3;
  attribute = λ i name. some 4;
  is_function = λ i. not (i == 3);
  module_name = λ i. ascii "app";
  global = λ i name. some 3;
  is_stdlib = λ name. false;
  file = λ name. some (ascii "/home/app.py");
  lower = λ b. b;
}

found_helper : referenced_global_functions python unwrapped 3 1 ≡ (ascii "mod.helper", 4) ∷ []
unfolding referenced_global_functions
found_helper = refl

referenced_global_functions-IsReported_example :
    All
      (λ p. IsReported python unwrapped 3 (undispatched python unwrapped 3 1) 1 p.1)
      (referenced_global_functions python unwrapped 3 1)
referenced_global_functions-IsReported_example =
    referenced_global_functions-IsReported python unwrapped 3 1
