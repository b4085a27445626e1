-- ===== src/Scenario/Closures.antt =====
-- src/cachau/fingerprint.py: a function that captures a number, as two processes make it.
use cachau.Disk.Header.{ascii}
use cachau.Fingerprint.Bound.{IsPlain}
use cachau.Fingerprint.Complete.{SameBindings, function_fingerprint-SameBindings}
use cachau.Fingerprint.Functions.{Failure, Primitives, function_fingerprint}
use cachau.Fingerprint.Objects.{Object, Heap}
use cachau.Fingerprint.Unique.{SameListing, Collision}
use cachau.Keys.Framing.{Bytes}
use cachau.Keys.Values.{leaf_value, int, unsupported, feed}
use cachau.Prelude.Exec.{Result, ok, raise}
use cachau.Prelude.{ℕ, zero, suc, [], ◌∷◌, true, false, none, some, ◌≡◌, ◌⊎◌, refl, arith}
use cachau.Scenario.Fingerprints.{outer, outer-IsCode}
use cachau.Scenario.Frames.{last, last_fixed}

abbrev prim : Primitives
prim = record { hash = last; hexdigest = λ b. b; repr_options = λ o. []; repr_locals = λ o. [] }

abbrev seven : Object
seven = record {
  code = none;
  closure = [];
  defaults = [];
  kwdefaults = [];
  wrapped = none;
  py_func = none;
  options = none;
  locals = [];
  is_callable = false;
  type_name = ascii "int";
  value = leaf_value int (ascii "7");
}

-- Object 0 is the function; it captures object `i`, and has it for its defaults.
abbrev process : ℕ → Heap
process i zero = record seven {
  code = some outer;
  closure = some i ∷ [];
  defaults = i ∷ i ∷ [];
  kwdefaults = (ascii "scale", i) ∷ [];
  is_callable = true;
  value = unsupported;
}
process i (suc j) = seven

process-IsPlain : (i : ℕ) → IsPlain prim (process (suc i)) 0 outer
unfolding feed
process-IsPlain i = record {
  undispatched = refl;
  coded = refl;
  variables = (((λ e. omega (arith, e)), ((λ e. omega (arith, e)), tt)), tt);
  parameters = (
    (
      (λ e. omega (arith, e)),
      (
        (λ e. omega (arith, e)),
        (
          (λ e. omega (arith, e)),
          ((λ e. omega (arith, e)), ((λ e. omega (arith, e)), ((λ e. omega (arith, e)), tt))),
        ),
      ),
    ),
    tt,
  );
  cells = ((_, refl), tt);
  defaults = ((_, refl), ((_, refl), tt));
  kwdefaults = ((_, refl), tt);
}

abbrev out : Result Failure Bytes → Bytes
out (ok b) = b
out (raise e) = []

unfoldable the_digest : Bytes
unfolding function_fingerprint
the_digest = out (function_fingerprint prim (process 1) 1 0)

here : function_fingerprint prim (process 1) 1 0 ≡ ok the_digest
unfolding function_fingerprint the_digest
here = refl

there : function_fingerprint prim (process 5) 2 0 ≡ ok the_digest
unfolding function_fingerprint the_digest
there = refl

function_fingerprint-SameBindings_example :
    (SameListing outer outer × SameBindings prim (process 1) (process 5) 0 outer 0 outer)
    ⊎ (Collision last ⊎ Collision prim.hexdigest)
function_fingerprint-SameBindings_example =
    function_fingerprint-SameBindings prim 2 last_fixed (process 1) (process 5) 1 2 0 0 the_digest
      outer outer (process-IsPlain 0) (process-IsPlain 4) outer-IsCode outer-IsCode here there
