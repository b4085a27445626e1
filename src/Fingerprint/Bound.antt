-- ===== src/Fingerprint/Bound.antt =====
-- src/cachau/fingerprint.py: all that is fed of a plain function: its code, closure and defaults.
use cachau.Disk.Header.{ascii}
use cachau.Fingerprint.Bindings.{render, section, IsLabel, IsBinding, decimal_text-IsLabel}
use cachau.Fingerprint.Captured.{
  IsHashable, IsBound, digest_of, captured, positional, named, closure-Yields, positional-Yields,
  named-Yields,
}
use cachau.Fingerprint.Code.{Code, feed_code}
use cachau.Fingerprint.Functions.{
  Fed, Primitives, is_empty, titled, freevars, feed_defaults, feed_coded, feed_parts, fingerprint,
  function_fingerprint,
}
use cachau.Fingerprint.Identity.{Over, Over-closure, Over-defaults, Over-kwdefaults, nothing-IsOver}
use cachau.Fingerprint.Objects.{OptionValue, Object, Heap, dispatcher_parts, name_lt}
use cachau.Fingerprint.Unique.{IsOver}
use cachau.Keys.Framing.{Bytes}
use cachau.Prelude.Exec.{ok}
use cachau.Prelude.Exec.Yields.{Yields, Yields-pure, Yields-bind, yields_ok}
use cachau.Prelude.Sort.{sorted, insort, All-sorted}
use cachau.Prelude.{
  ℕ, zero, suc, List, [], ◌∷◌, ◌++◌, ◌≡◌, refl, sym, ap, Bool, true, false, Option, none, some,
  length, All, if◌then◌else◌,
}
use mathlib.Core.List.{append-nil}
use mathlib.Core.Path.{subst}

is_empty-insort :
    {A : Type 0} (before : A → A → Bool) (x : A) (xs : List A)
    → is_empty (insort before x xs) ≡ false
unfolding insort
is_empty-insort before x [] = refl
is_empty-insort before x (y ∷ xs) = chosen (before y x)
  where
    chosen : (b : Bool) → is_empty (if b then y ∷ insort before x xs else x ∷ y ∷ xs) ≡ false
    chosen true = refl
    chosen false = refl

module _ (prim : Primitives) (heap : Heap) where
  is_empty-named :
      (ps : List (Bytes × ℕ)) → is_empty (named prim heap (sorted name_lt ps)) ≡ is_empty ps
  unfolding named sorted
  is_empty-named [] = refl
  is_empty-named (p ∷ ps) =
      kept (insort name_lt p (sorted name_lt ps)) (is_empty-insort name_lt p (sorted name_lt ps))
    where
      kept : (qs : List (Bytes × ℕ)) → is_empty qs ≡ false → is_empty (named prim heap qs) ≡ false
      kept [] e = e
      kept (q ∷ qs) e = refl

  is_empty-positional :
      (index : ℕ) (defaults : List ℕ)
      → is_empty (positional prim heap index defaults) ≡ is_empty defaults
  unfolding positional
  is_empty-positional index [] = refl
  is_empty-positional index (j ∷ rest) = refl

  titled-Yields :
      (title : Bytes) (b : Bool) (l : List (Bytes × Bytes)) (m : Fed)
      → is_empty l ≡ b
      → Yields (λ x. x ≡ render l) m
      → Yields (λ x. x ≡ section title l) (titled title b m)
  unfolding titled
  titled-Yields title true [] m e h = Yields-pure [] refl
  titled-Yields title true (x ∷ l) m e h = absurd (cc)
  titled-Yields title false [] m e h = absurd (cc)
  titled-Yields title false (x ∷ l) m e h =
      Yields-bind h (λ b f. Yields-pure _ (ap (λ y. title ++ y) f))

  -- What comes behind the code.
  abbrev pub bound_text : Code → Object → Bytes
  bound_text c o =
      section (ascii "|closure:") (captured prim heap (freevars c) o.closure)
      ++ (section (ascii "|defaults:") (positional prim heap 0 o.defaults)
          ++ section (ascii "|kwdefaults:") (named prim heap (sorted name_lt o.kwdefaults)))

  -- A plain function whose variables and parameters have identifiers for names, and whose captured
  -- values and defaults all have digests.
  pub record IsPlain (func : ℕ) (c : Code) : Type 0 where
    pub undispatched : dispatcher_parts (heap func) ≡ none
    pub coded : (heap func).code ≡ some c
    pub variables : All IsLabel (freevars c)
    pub parameters : All (λ p. IsLabel p.0) (heap func).kwdefaults
    pub cells : All (IsBound prim heap) (heap func).closure
    pub defaults : All (IsHashable prim heap) (heap func).defaults
    pub kwdefaults : All (λ p. IsHashable prim heap p.1) (heap func).kwdefaults

  coded-Yields :
      (self : ℕ → Fed) (c : Code) (o : Object)
      → All (IsBound prim heap) o.closure
      → All (IsHashable prim heap) o.defaults
      → All (λ p. IsHashable prim heap p.1) o.kwdefaults
      → Yields
          (λ x. x ≡ feed_code prim.hash c ++ bound_text c o)
          (feed_coded prim heap self (some c) o)
  unfolding feed_coded feed_defaults
  coded-Yields self c o cells defaults kwdefaults =
      Yields-bind (closure-Yields prim heap self (freevars c) o.closure cells) λ a e.
        Yields-bind
          {P = λ x.
            x
            ≡ section (ascii "|defaults:") (positional prim heap 0 o.defaults)
              ++ section (ascii "|kwdefaults:") (named prim heap (sorted name_lt o.kwdefaults))}
          (Yields-bind
            (titled-Yields (ascii "|defaults:") (is_empty o.defaults)
              (positional prim heap 0 o.defaults) _ (is_empty-positional 0 o.defaults)
              (positional-Yields prim heap self 0 o.defaults defaults))
            λ b f.
              Yields-bind
                (titled-Yields (ascii "|kwdefaults:") (is_empty o.kwdefaults)
                  (named prim heap (sorted name_lt o.kwdefaults)) _ (is_empty-named o.kwdefaults)
                  (named-Yields prim heap self (sorted name_lt o.kwdefaults)
                    (All-sorted name_lt _ o.kwdefaults kwdefaults)))
                (λ d g. Yields-pure _ (cc (f, g))))
          (λ b f. Yields-pure _ (cc (e, f)))

  function-Yields :
      (self : ℕ → Fed) (c : Code) (k : Option Code) (o : Object)
      → k ≡ some c
      → All (IsBound prim heap) o.closure
      → All (IsHashable prim heap) o.defaults
      → All (λ p. IsHashable prim heap p.1) o.kwdefaults
      → Yields (λ x. x ≡ feed_code prim.hash c ++ bound_text c o) (feed_coded prim heap self k o)
  function-Yields self c none o e cells defaults kwdefaults = absurd (cc)
  function-Yields self c (some k) o e cells defaults kwdefaults =
      let same : c ≡ k = cc in
      subst
        (λ d.
          Yields (λ x. x ≡ feed_code prim.hash d ++ bound_text d o)
            (feed_coded prim heap self (some k) o))
        (sym same) (coded-Yields self k o cells defaults kwdefaults)

  parts-Yields :
      (self : ℕ → Fed) (func : ℕ) (c : Code) (p : Option (ℕ × List (Bytes × OptionValue)))
      (k : Option Code)
      → p ≡ none
      → k ≡ some c
      → IsPlain func c
      → Yields
          (λ x. x ≡ prim.hexdigest (feed_code prim.hash c ++ bound_text c (heap func)))
          (feed_parts prim heap self func p k)
  unfolding feed_parts
  parts-Yields self func c (some q) k e f h = absurd (cc)
  parts-Yields self func c none none e f h = absurd (cc)
  parts-Yields self func c none (some k) e f h =
      Yields-bind
        (function-Yields self c (heap func).code (heap func) h.coded h.cells h.defaults
          h.kwdefaults)
        (λ b g. Yields-pure _ (ap prim.hexdigest g))

  pub plain_digest :
      (fuel func : ℕ) (digest : Bytes) (c : Code)
      → IsPlain func c
      → function_fingerprint prim heap fuel func ≡ ok digest
      → digest ≡ prim.hexdigest (feed_code prim.hash c ++ bound_text c (heap func))
  unfolding function_fingerprint fingerprint
  plain_digest zero func digest c h e = cc
  plain_digest (suc fuel) func digest c h e =
      yields_ok (func ∷ []) digest
        (parts-Yields (fingerprint prim heap fuel) func c (dispatcher_parts (heap func))
          (heap func).code h.undispatched h.coded h)
        e

  section-Over :
      (title : Bytes) (l : List (Bytes × Bytes))
      → ((b : Bytes) → Over (title ++ b))
      → Over (section title l)
  section-Over title [] h s g = g
  section-Over title (x ∷ l) h s g = h (render (x ∷ l)) s g

  pub bound_text-IsOver : (c : Code) (o : Object) → IsOver (bound_text c o)
  bound_text-IsOver c o =
      section-Over (ascii "|closure:") (captured prim heap (freevars c) o.closure) Over-closure _ (
        section-Over (ascii "|defaults:") (positional prim heap 0 o.defaults) Over-defaults _ (
          subst IsOver
            (append-nil
              (section (ascii "|kwdefaults:") (named prim heap (sorted name_lt o.kwdefaults))))
            (section-Over (ascii "|kwdefaults:") (named prim heap (sorted name_lt o.kwdefaults))
              Over-kwdefaults [] nothing-IsOver)))

  module _ (size : ℕ) (fixed : (b : Bytes) → length (prim.hash b) ≡ size) where
    digest-length : (j : ℕ) → IsHashable prim heap j → length (digest_of prim heap j) ≡ size
    digest-length j (b, e) = rw e (fixed b)

    pub captured-IsBinding :
        (names : List Bytes) (cells : List (Option ℕ))
        → All IsLabel names
        → All (IsBound prim heap) cells
        → All (IsBinding size) (captured prim heap names cells)
    unfolding captured
    captured-IsBinding [] cells p q = tt
    captured-IsBinding (name ∷ names) [] p q = tt
    captured-IsBinding (name ∷ names) (none ∷ cells) p (q, qs) = absurd q
    captured-IsBinding (name ∷ names) (some j ∷ cells) (p, ps) (q, qs) =
        ((p, digest-length j q), captured-IsBinding names cells ps qs)

    pub positional-IsBinding :
        (index : ℕ) (defaults : List ℕ)
        → All (IsHashable prim heap) defaults
        → All (IsBinding size) (positional prim heap index defaults)
    unfolding positional
    positional-IsBinding index [] h = tt
    positional-IsBinding index (j ∷ rest) (h, hs) =
        ((decimal_text-IsLabel index, digest-length j h), positional-IsBinding (suc index) rest hs)

    pub named-IsBinding :
        (ps : List (Bytes × ℕ))
        → All (λ p. IsLabel p.0) ps
        → All (λ p. IsHashable prim heap p.1) ps
        → All (IsBinding size) (named prim heap ps)
    unfolding named
    named-IsBinding [] p q = tt
    named-IsBinding ((name, j) ∷ rest) (p, ps) (q, qs) =
        ((p, digest-length j q), named-IsBinding rest ps qs)
