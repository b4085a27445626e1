-- ===== src/Fingerprint/Identity.antt =====
-- src/cachau/fingerprint.py: what `function_fingerprint` says of a function's code.
use cachau.Disk.Header.{ascii}
use cachau.Fingerprint.Code.{Code, feed_code}
use cachau.Fingerprint.Functions.{
  Fed, Primitives, is_empty, titled, freevars, feed_cells, feed_closure, feed_positional,
  feed_named, feed_defaults, feed_coded, option_parts, feed_parts, fingerprint,
  function_fingerprint,
}
use cachau.Fingerprint.Objects.{OptionValue, Object, Heap, dispatcher_parts, name_lt}
use cachau.Fingerprint.Unique.{
  IsCode, SameListing, Collision, IsOver, starts_with, feed_code_unique, compared,
}
use cachau.Keys.Framing.{Bytes}
use cachau.Prelude.Exec.{ok, modify}
use cachau.Prelude.Exec.Yields.{Yields, Yields-pure, Yields-bind, yields_ok, anything}
use cachau.Prelude.Sort.{sorted}
use cachau.Prelude.{
  ℕ, zero, suc, List, [], ◌∷◌, ◌++◌, ◌≡◌, ◌⊎◌, refl, sym, ap, ◌∙◌, Bool, true, false, Option, none,
  some, inl, inr,
}
use mathlib.Core.List.{append_assoc, append-nil}
use mathlib.Core.Path.{subst}

-- Before what is not a further constant this is not one either.
abbrev pub Over : Bytes → Type 0
Over b = (s : Bytes) → IsOver s → IsOver (b ++ s)

pub Over-append : (a b : Bytes) → Over a → Over b → Over (a ++ b)
Over-append a b p q s h = subst IsOver (sym (append_assoc a b s)) (p (b ++ s) (q s h))

pub Over-closure : (b : Bytes) → Over (ascii "|closure:" ++ b)
unfolding starts_with
Over-closure b s h = refl

pub Over-defaults : (b : Bytes) → Over (ascii "|defaults:" ++ b)
unfolding starts_with
Over-defaults b s h = refl

pub Over-kwdefaults : (b : Bytes) → Over (ascii "|kwdefaults:" ++ b)
unfolding starts_with
Over-kwdefaults b s h = refl

pub nothing-IsOver : IsOver []
unfolding starts_with
nothing-IsOver = refl

-- The code that a function's fingerprint begins with.
abbrev pub target_code : Heap → Option (ℕ × List (Bytes × OptionValue)) → Option Code → Option Code
target_code heap none c = c
target_code heap (some (py_func, options)) c = (heap py_func).code

abbrev pub code_of : Heap → ℕ → Option Code
code_of heap func = target_code heap (dispatcher_parts (heap func)) (heap func).code

module _ (prim : Primitives) (heap : Heap) where
  Streams : Code → Bytes → Type 0
  Streams c b = (rest : Bytes) × Over rest × (b ≡ feed_code prim.hash c ++ rest)

  abbrev Digests : Code → Bytes → Type 0
  Digests c b = (rest : Bytes) × IsOver rest × (b ≡ prim.hexdigest (feed_code prim.hash c ++ rest))

  titled-Yields :
      (title : Bytes) (b : Bool) (m : Fed)
      → ((x : Bytes) → Over (title ++ x))
      → Yields Over (titled title b m)
  unfolding titled
  titled-Yields title true m h = Yields-pure [] (λ s g. g)
  titled-Yields title false m h = Yields-bind (anything m) (λ x _. Yields-pure (title ++ x) (h x))

  IsOver-options :
      (o : Object) (options : List (Bytes × OptionValue))
      → IsOver (option_parts prim heap o options)
  unfolding option_parts starts_with
  IsOver-options o options = refl

  module _ (self : ℕ → Fed) where
    closure-Yields :
        (names : List Bytes) (cells : List (Option ℕ))
        → Yields Over (feed_closure prim heap self names cells)
    unfolding feed_closure
    closure-Yields [] cells = Yields-pure [] (λ s g. g)
    closure-Yields (name ∷ names) [] = Yields-pure [] (λ s g. g)
    closure-Yields (name ∷ names) (cell ∷ cells) =
        Yields-bind (anything (feed_cells prim heap self (name ∷ names) (cell ∷ cells)))
          λ x _. Yields-pure (ascii "|closure:" ++ x) (Over-closure x)

    defaults-Yields :
        (defaults : List ℕ) (kwdefaults : List (Bytes × ℕ))
        → Yields Over (feed_defaults prim heap self defaults kwdefaults)
    unfolding feed_defaults
    defaults-Yields defaults kwdefaults =
        Yields-bind
          (titled-Yields (ascii "|defaults:") (is_empty defaults)
            (feed_positional prim heap self 0 defaults) Over-defaults)
          λ a p.
            Yields-bind
              (titled-Yields (ascii "|kwdefaults:") (is_empty kwdefaults)
                (feed_named prim heap self (sorted name_lt kwdefaults)) Over-kwdefaults)
              λ b q. Yields-pure (a ++ b) (Over-append a b p q)

    function-Yields :
        (c : Code) (k : Option Code) (o : Object)
        → k ≡ some c
        → Yields (Streams c) (feed_coded prim heap self k o)
    unfolding feed_coded Streams
    function-Yields c none o e = cc
    function-Yields c (some k) o e = Yields-bind (closure-Yields (freevars k) o.closure) λ a p.
        Yields-bind (defaults-Yields o.defaults o.kwdefaults) λ b q.
          Yields-pure (feed_code prim.hash k ++ (a ++ b)) (
            a ++ b,
            Over-append a b p q,
            let same : k ≡ c = cc in ap (λ x. feed_code prim.hash x ++ (a ++ b)) same,
          )

    parts-Yields :
        (func : ℕ) (p : Option (ℕ × List (Bytes × OptionValue))) (k : Option Code) (c : Code)
        → (heap func).code ≡ k
        → target_code heap p k ≡ some c
        → Yields (Digests c) (feed_parts prim heap self func p k)
    unfolding feed_parts Streams
    parts-Yields func none none c own e = cc
    parts-Yields func none (some k) c own e =
        Yields-bind (function-Yields c (heap func).code (heap func) (own ∙ e))
          λ b (rest, over, same).
            Yields-pure (prim.hexdigest b) (
              rest,
              subst IsOver (append-nil rest) (over [] nothing-IsOver),
              ap prim.hexdigest same,
            )
    parts-Yields func (some (f, options)) k c own e =
        Yields-bind (anything (modify (λ seen. f ∷ seen))) λ _ _.
          Yields-bind (function-Yields c (heap f).code (heap f) e) λ b (rest, over, same).
            let more = option_parts prim heap (heap func) options in
            Yields-pure (prim.hexdigest (b ++ more)) (
              rest ++ more,
              over more (IsOver-options (heap func) options),
              ap prim.hexdigest
                  (ap (λ x. x ++ more) same ∙ append_assoc (feed_code prim.hash c) rest more),
            )

  -- A fingerprint is the digest of the code's bytes and of more that does not begin like a constant.
  pub fingerprint-Digests :
      (fuel func : ℕ) (digest : Bytes) (c : Code)
      → function_fingerprint prim heap fuel func ≡ ok digest
      → code_of heap func ≡ some c
      → Digests c digest
  unfolding function_fingerprint fingerprint
  fingerprint-Digests zero func digest c h e = cc
  fingerprint-Digests (suc fuel) func digest c h e =
      yields_ok (func ∷ []) digest
        (parts-Yields (fingerprint prim heap fuel) func (dispatcher_parts (heap func))
          (heap func).code c refl e)
        h

-- Two functions with the same fingerprint, in one process or in two, have the same bytecode, names,
-- variables and rendered constants at every depth of nesting, unless two texts that differ have the
-- same hash or the same hexadecimal digest. The code of a dispatcher is that of its Python function,
-- and names are neither empty nor have a comma.
pub function_fingerprint_unique :
    (prim : Primitives) (heap heap' : Heap) (fuel fuel' f g : ℕ) (digest : Bytes) (c d : Code)
    → function_fingerprint prim heap fuel f ≡ ok digest
    → function_fingerprint prim heap' fuel' g ≡ ok digest
    → code_of heap f ≡ some c
    → code_of heap' g ≡ some d
    → IsCode c
    → IsCode d
    → SameListing c d ⊎ (Collision prim.hash ⊎ Collision prim.hexdigest)
function_fingerprint_unique prim heap heap' fuel fuel' f g digest c d hf hg ec ed ic id =
    let (r, over_r, er) = fingerprint-Digests prim heap fuel f digest c hf ec in
    let (s, over_s, es) = fingerprint-Digests prim heap' fuel' g digest d hg ed in
    let stream = λ (k : Code) (x : Bytes). feed_code prim.hash k ++ x in
    elim (compared prim.hexdigest {A = SameListing c d ⊎ Collision prim.hash} (stream c r)
      (stream d s) (sym er ∙ es)
      (λ e. elim (feed_code_unique prim.hash c d r s ic id over_r over_s e) [
        | inl (same, _) ↦ inl (inl same)
        | inr x ↦ inl (inr x)
      ])) [ inl (inl same) ↦ inl same | inl (inr x) ↦ inr (inl x) | inr x ↦ inr (inr x) ]
