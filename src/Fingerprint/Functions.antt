-- ===== src/Fingerprint/Functions.antt =====
-- src/cachau/fingerprint.py: `_fingerprint` and the functions that it feeds through, on a heap of
-- objects. `seen` is the state, and what a step adds to the hasher is its result.
use cachau.Fingerprint.Objects.{
  OptionValue, Object, Heap, dispatcher_parts, semantic_target_options, relevant_options, name_lt,
  has,
}
use cachau.Disk.Header.{ascii}
use cachau.Fingerprint.Code.{Code, code, decimal_text, feed_code}
use cachau.Keys.Framing.{Bytes}
use cachau.Keys.Values.{feed, bytes_lt, pair_lt}
use cachau.Prelude.Exec.{Result, raise, Exec, modify, pure, ◌>>=◌}
use cachau.Prelude.Sort.{sorted}
use cachau.Prelude.{
  ℕ, zero, suc, List, [], ◌∷◌, ◌++◌, Bool, true, false, ◌&&◌, Option, none, some, is_some,
  if◌then◌else◌,
}

-- A `ConfigurationError`, an `AttributeError` for a `py_func` without code, and the bound of the model.
pub data Failure : Type 0 where
  configuration attribute out_of_fuel : Failure

abbrev pub Fed : Type 0
Fed = Exec Failure (List ℕ) Bytes

abbrev pub fail : Failure → Fed
fail e seen = (raise e, seen)

abbrev pub freevars : Code → List Bytes
freevars (code layout co_code names varnames free consts) = free

abbrev pub is_empty {ℓ} : {A : Type ℓ} → List A → Bool
is_empty [] = true
is_empty (x ∷ xs) = false

-- A title before what is fed, where there is any of it
unfoldable pub titled : Bytes → Bool → Fed → Fed
unfolding ◌>>=◌
titled title true m = pure []
titled title false m = m >>= λ b. pure (title ++ b)

-- `hash` and `hexdigest` are those of `hashlib.sha256`, `repr_options` and `repr_locals` are `repr` on
-- lists of pairs.
pub record Primitives : Type 0 where
  pub hash : Bytes → Bytes
  pub hexdigest : Bytes → Bytes
  pub repr_options : List (Bytes × OptionValue) → Bytes
  pub repr_locals : List (Bytes × Bytes) → Bytes

module _ (prim : Primitives) (heap : Heap) where
  module _ (self : ℕ → Fed) where
    -- The flag says whether the function is in `seen`.
    unfoldable pub feed_reference : Bool → ℕ → Fed
    unfolding ◌>>=◌
    feed_reference true contents = pure (ascii "<function:recursive>")
    feed_reference false contents =
        self contents >>= λ digest. pure (ascii "<function:" ++ (digest ++ ascii ">"))

    -- The value's digest, where there is one, and whether it is a function.
    unfoldable pub feed_bound : Option Bytes → Bool → ℕ → Fed
    unfolding feed_reference
    feed_bound (some b) callable contents = pure (prim.hash b)
    feed_bound none true contents = λ seen. feed_reference (has seen contents) contents seen
    feed_bound none false contents = pure (
        ascii "<opaque:"
        ++ ((heap contents).type_name ++ (ascii ":" ++ (decimal_text contents ++ ascii ">"))))

    unfoldable pub feed_bound_value : ℕ → Fed
    unfolding feed feed_bound
    feed_bound_value contents =
        feed_bound (feed prim.hash (heap contents).value)
          ((heap contents).is_callable && is_some (heap contents).code) contents

    unfoldable pub feed_cells : List Bytes → List (Option ℕ) → Fed
    unfolding feed_bound_value
    feed_cells [] cells = pure []
    feed_cells (name ∷ names) [] = pure []
    feed_cells (name ∷ names) (none ∷ cells) =
        feed_cells names cells >>= λ rest. pure (name ++ (ascii "=<unbound>" ++ rest))
    feed_cells (name ∷ names) (some contents ∷ cells) = feed_bound_value contents >>= λ b.
        feed_cells names cells >>= λ rest. pure (name ++ (ascii "=" ++ (b ++ rest)))

    unfoldable pub feed_closure : List Bytes → List (Option ℕ) → Fed
    unfolding feed_cells
    feed_closure [] cells = pure []
    feed_closure (name ∷ names) [] = pure []
    feed_closure (name ∷ names) (cell ∷ cells) =
        feed_cells (name ∷ names) (cell ∷ cells) >>= λ rest. pure (ascii "|closure:" ++ rest)

    unfoldable pub feed_positional : ℕ → List ℕ → Fed
    unfolding feed_bound_value
    feed_positional index [] = pure []
    feed_positional index (contents ∷ rest) = feed_bound_value contents >>= λ b.
        feed_positional (suc index) rest >>= λ bs.
        pure (decimal_text index ++ (ascii "=" ++ (b ++ bs)))

    unfoldable pub feed_named : List (Bytes × ℕ) → Fed
    unfolding feed_bound_value
    feed_named [] = pure []
    feed_named ((name, contents) ∷ rest) = feed_bound_value contents >>= λ b.
        feed_named rest >>= λ bs. pure (name ++ (ascii "=" ++ (b ++ bs)))

    unfoldable pub feed_defaults : List ℕ → List (Bytes × ℕ) → Fed
    unfolding feed_positional feed_named sorted bytes_lt titled
    feed_defaults defaults kwdefaults =
        titled (ascii "|defaults:") (is_empty defaults) (feed_positional 0 defaults) >>= λ a.
        titled (ascii "|kwdefaults:") (is_empty kwdefaults) (feed_named (sorted name_lt kwdefaults))
        >>= λ b. pure (a ++ b)

    unfoldable pub feed_coded : Option Code → Object → Fed
    unfolding feed_code feed_closure feed_defaults
    feed_coded none o = fail attribute
    feed_coded (some c) o = feed_closure (freevars c) o.closure >>= λ closure.
        feed_defaults o.defaults o.kwdefaults >>= λ defaults.
        pure (feed_code prim.hash c ++ (closure ++ defaults))

    abbrev pub feed_function : Object → Fed
    feed_function o = feed_coded o.code o

  unfoldable pub option_parts : Object → List (Bytes × OptionValue) → Bytes
  unfolding sorted bytes_lt pair_lt relevant_options
  option_parts o options =
      ascii "|target-options:"
      ++ (prim.repr_options (sorted name_lt (relevant_options semantic_target_options options))
          ++ (if is_empty o.locals
              then []
              else ascii "|locals:" ++ prim.repr_locals (sorted pair_lt o.locals)))

  -- For the parts of a dispatcher, or else the code of a plain function.
  unfoldable pub feed_parts :
      (ℕ → Fed) → ℕ → Option (ℕ × List (Bytes × OptionValue)) → Option Code → Fed
  unfolding feed_coded option_parts ◌>>=◌
  feed_parts self func (some (py_func, options)) c = modify (λ seen. py_func ∷ seen) >>= λ _.
      feed_function self (heap py_func) >>= λ b.
      pure (prim.hexdigest (b ++ option_parts (heap func) options))
  feed_parts self func none none = fail configuration
  feed_parts self func none (some c) =
      feed_function self (heap func) >>= λ b. pure (prim.hexdigest b)

  -- One call deep for each function whose fingerprint is part of another's.
  unfoldable pub fingerprint : ℕ → ℕ → Fed
  unfolding feed_parts ◌>>=◌
  fingerprint zero func = fail out_of_fuel
  fingerprint (suc fuel) func = modify (λ seen. func ∷ seen) >>= λ _.
      feed_parts (fingerprint fuel) func (dispatcher_parts (heap func)) (heap func).code

  -- `function_fingerprint`
  unfoldable pub function_fingerprint : ℕ → ℕ → Result Failure Bytes
  unfolding fingerprint
  function_fingerprint fuel func = (fingerprint fuel func []).0
