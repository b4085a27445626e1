-- ===== src/Fingerprint/Complete.antt =====
-- src/cachau/fingerprint.py: what the fingerprint of a plain function says of it.
use cachau.Disk.Header.{ascii}
use cachau.Fingerprint.Bindings.{section, bar, IsApart, section_unique}
use cachau.Fingerprint.Bound.{
  bound_text, IsPlain, plain_digest, bound_text-IsOver, captured-IsBinding, positional-IsBinding,
  named-IsBinding,
}
use cachau.Fingerprint.Captured.{captured, positional, named}
use cachau.Fingerprint.Code.{Code, feed_code}
use cachau.Fingerprint.Functions.{Primitives, freevars, function_fingerprint}
use cachau.Fingerprint.Objects.{Heap, name_lt}
use cachau.Fingerprint.Unique.{IsCode, SameListing, Collision, feed_code_unique, compared}
use cachau.Keys.Framing.{Bytes}
use cachau.Prelude.Exec.{ok}
use cachau.Prelude.Sort.{sorted, All-sorted}
use mathlib.Core.List.{append-nil}
use mathlib.Core.Path.{subst}
use cachau.Prelude.{
  ℕ, List, [], ◌∷◌, ◌++◌, ◌≡◌, ◌≢◌, ◌⊎◌, refl, sym, ap, ◌∙◌, inl, inr, length, arith,
}

section-IsApart :
    (x y : ℕ) (title : Bytes) (l : List (Bytes × Bytes)) (r : Bytes)
    → y ≢ x
    → IsApart x r
    → IsApart x (section (bar ∷ y ∷ title) l ++ r)
section-IsApart x y title [] r d h = h
section-IsApart x y title (b ∷ l) r d h = (refl, d)

module _ (prim : Primitives) (heap heap' : Heap) where
  -- The same names with the same digests of values: captured, positional and keyword-only.
  pub SameBindings : ℕ → Code → ℕ → Code → Type 0
  SameBindings f c g d =
      (captured prim heap (freevars c) (heap f).closure
        ≡ captured prim heap' (freevars d) (heap' g).closure)
      × (positional prim heap 0 (heap f).defaults ≡ positional prim heap' 0 (heap' g).defaults)
      × (named prim heap (sorted name_lt (heap f).kwdefaults)
          ≡ named prim heap' (sorted name_lt (heap' g).kwdefaults))

module _ (prim : Primitives) (size : ℕ) (fixed : (b : Bytes) → length (prim.hash b) ≡ size)
    (heap heap' : Heap) where
  bindings_unique :
      (f g : ℕ) (c d : Code)
      → IsPlain prim heap f c
      → IsPlain prim heap' g d
      → bound_text prim heap c (heap f) ≡ bound_text prim heap' d (heap' g)
      → SameBindings prim heap heap' f c g d
  unfolding SameBindings
  bindings_unique f g c d p q h =
      let k = named prim heap (sorted name_lt (heap f).kwdefaults) in
      let k' = named prim heap' (sorted name_lt (heap' g).kwdefaults) in
      let keywords = λ (x : ℕ) (l : List (Bytes × Bytes)) (e : 107 ≢ x).
        subst (IsApart x) (append-nil (section (ascii "|kwdefaults:") l))
          (section-IsApart x 107 (ascii "wdefaults:") l [] e tt) in
      let (closures, below) =
        section_unique size 99 (ascii "losure:") (captured prim heap (freevars c) (heap f).closure)
          (captured prim heap' (freevars d) (heap' g).closure) _ _
          (captured-IsBinding prim heap size fixed (freevars c) (heap f).closure p.variables
            p.cells)
          (captured-IsBinding prim heap' size fixed (freevars d) (heap' g).closure q.variables
            q.cells)
          (section-IsApart 99 100 (ascii "efaults:") (positional prim heap 0 (heap f).defaults) _
            (λ e. omega (arith, e)) (keywords 99 k (λ e. omega (arith, e))))
          (section-IsApart 99 100 (ascii "efaults:") (positional prim heap' 0 (heap' g).defaults) _
            (λ e. omega (arith, e)) (keywords 99 k' (λ e. omega (arith, e))))
          h in
      let (defaults, rest) =
        section_unique size 100 (ascii "efaults:") (positional prim heap 0 (heap f).defaults)
          (positional prim heap' 0 (heap' g).defaults) _ _
          (positional-IsBinding prim heap size fixed 0 (heap f).defaults p.defaults)
          (positional-IsBinding prim heap' size fixed 0 (heap' g).defaults q.defaults)
          (keywords 100 k (λ e. omega (arith, e))) (keywords 100 k' (λ e. omega (arith, e)))
          below in
      let (kwdefaults, over) =
        section_unique size 107 (ascii "wdefaults:") k k' [] []
          (named-IsBinding prim heap size fixed (sorted name_lt (heap f).kwdefaults)
            (All-sorted name_lt _ (heap f).kwdefaults p.parameters)
            (All-sorted name_lt _ (heap f).kwdefaults p.kwdefaults))
          (named-IsBinding prim heap' size fixed (sorted name_lt (heap' g).kwdefaults)
            (All-sorted name_lt _ (heap' g).kwdefaults q.parameters)
            (All-sorted name_lt _ (heap' g).kwdefaults q.kwdefaults))
          tt tt (ap (λ x. x ++ []) rest) in
      (closures, defaults, kwdefaults)

  -- Two plain functions with the same fingerprint, in one process or in two, have the same bytecode,
  -- names, names of variables and rendered constants at every depth of nesting, capture the same
  -- variables with values of the same digests, and have the same positional and keyword defaults by
  -- their digests, unless two texts that differ have the same hash or hexadecimal digest. Argument
  -- counts, flags and the free variables of nested functions are not compared, and may differ. It is for
  -- functions whose captured values and defaults all have digests, for names that are identifiers, and
  -- for hashes of one length.
  pub function_fingerprint-SameBindings :
      (fuel fuel' f g : ℕ) (digest : Bytes) (c d : Code)
      → IsPlain prim heap f c
      → IsPlain prim heap' g d
      → IsCode c
      → IsCode d
      → function_fingerprint prim heap fuel f ≡ ok digest
      → function_fingerprint prim heap' fuel' g ≡ ok digest
      → (SameListing c d × SameBindings prim heap heap' f c g d)
        ⊎ (Collision prim.hash ⊎ Collision prim.hexdigest)
  function_fingerprint-SameBindings fuel fuel' f g digest c d p q ic id hf hg =
      let r = bound_text prim heap c (heap f) in
      let s = bound_text prim heap' d (heap' g) in
      elim (compared prim.hexdigest
        {A = (SameListing c d × SameBindings prim heap heap' f c g d) ⊎ Collision prim.hash}
        (feed_code prim.hash c ++ r) (feed_code prim.hash d ++ s)
        (sym (plain_digest prim heap fuel f digest c p hf)
          ∙ plain_digest prim heap' fuel' g digest d q hg)
        (λ e.
          elim (feed_code_unique prim.hash c d r s ic id (bound_text-IsOver prim heap c (heap f))
            (bound_text-IsOver prim heap' d (heap' g)) e) [
              | inl (same, rest) ↦ inl (inl (same, bindings_unique f g c d p q rest))
              | inr x ↦ inl (inr x)
            ])) [ inl (inl same) ↦ inl same | inl (inr x) ↦ inr (inl x) | inr x ↦ inr (inr x) ]
