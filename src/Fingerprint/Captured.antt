-- ===== src/Fingerprint/Captured.antt =====
-- src/cachau/fingerprint.py: what a function captures and has for defaults, where the values have
-- digests.
use cachau.Disk.Header.{ascii}
use cachau.Fingerprint.Bindings.{render, section}
use cachau.Fingerprint.Code.{decimal_text}
use cachau.Fingerprint.Functions.{
  Fed, Primitives, feed_bound, feed_bound_value, feed_cells, feed_closure, feed_positional,
  feed_named,
}
use cachau.Fingerprint.Objects.{Heap}
use cachau.Keys.Framing.{Bytes}
use cachau.Keys.Values.{feed}
use cachau.Prelude.Exec.Yields.{Yields, Yields-pure, Yields-bind}
use cachau.Prelude.{ℕ, suc, List, [], ◌∷◌, ◌++◌, ◌≡◌, refl, ap, Bool, Option, none, some, All}

module _ (prim : Primitives) (heap : Heap) where
  abbrev pub IsHashable : ℕ → Type 0
  IsHashable j = (b : Bytes) × (feed prim.hash (heap j).value ≡ some b)

  abbrev hashed : Option Bytes → Bytes
  hashed none = []
  hashed (some b) = prim.hash b

  -- `_digest_value`
  abbrev pub digest_of : ℕ → Bytes
  digest_of j = hashed (feed prim.hash (heap j).value)

  -- The captured variables, positional defaults and keyword defaults, each with its value's digest.
  unfoldable pub captured : List Bytes → List (Option ℕ) → List (Bytes × Bytes)
  unfolding feed
  captured [] cells = []
  captured (name ∷ names) [] = []
  captured (name ∷ names) (none ∷ cells) = captured names cells
  captured (name ∷ names) (some j ∷ cells) = (name, digest_of j) ∷ captured names cells

  unfoldable pub positional : ℕ → List ℕ → List (Bytes × Bytes)
  unfolding feed
  positional index [] = []
  positional index (j ∷ rest) = (decimal_text index, digest_of j) ∷ positional (suc index) rest

  unfoldable pub named : List (Bytes × ℕ) → List (Bytes × Bytes)
  unfolding feed
  named [] = []
  named ((name, j) ∷ rest) = (name, digest_of j) ∷ named rest

  abbrev pub IsBound : Option ℕ → Type 0
  IsBound none = ⊥
  IsBound (some j) = IsHashable j

  module _ (self : ℕ → Fed) where
    bound-Yields :
        (o : Option Bytes) (b : Bytes) (callable : Bool) (j : ℕ)
        → o ≡ some b
        → Yields (λ x. x ≡ hashed o) (feed_bound prim heap self o callable j)
    unfolding feed_bound
    bound-Yields none b callable j e = absurd (cc)
    bound-Yields (some a) b callable j e = Yields-pure (prim.hash a) refl

    value-Yields :
        (j : ℕ) → IsHashable j → Yields (λ x. x ≡ digest_of j) (feed_bound_value prim heap self j)
    unfolding feed_bound_value
    value-Yields j (b, e) = bound-Yields (feed prim.hash (heap j).value) b _ j e

    cells-Yields :
        (names : List Bytes) (cells : List (Option ℕ))
        → All IsBound cells
        → Yields (λ x. x ≡ render (captured names cells)) (feed_cells prim heap self names cells)
    unfolding feed_cells captured
    cells-Yields [] cells h = Yields-pure [] refl
    cells-Yields (name ∷ names) [] h = Yields-pure [] refl
    cells-Yields (name ∷ names) (none ∷ cells) (h, hs) = absurd h
    cells-Yields (name ∷ names) (some j ∷ cells) (h, hs) =
        Yields-bind (value-Yields j h)
          λ b e. Yields-bind (cells-Yields names cells hs) λ rest f. Yields-pure _ (cc (e, f))

    pub closure-Yields :
        (names : List Bytes) (cells : List (Option ℕ))
        → All IsBound cells
        → Yields
            (λ x. x ≡ section (ascii "|closure:") (captured names cells))
            (feed_closure prim heap self names cells)
    unfolding feed_closure captured
    closure-Yields [] cells h = Yields-pure [] refl
    closure-Yields (name ∷ names) [] h = Yields-pure [] refl
    closure-Yields (name ∷ names) (none ∷ cells) (h, hs) = absurd h
    closure-Yields (name ∷ names) (some j ∷ cells) h =
        Yields-bind (cells-Yields (name ∷ names) (some j ∷ cells) h)
          λ rest f. Yields-pure _ (ap (λ x. ascii "|closure:" ++ x) f)

    pub positional-Yields :
        (index : ℕ) (defaults : List ℕ)
        → All IsHashable defaults
        → Yields
            (λ x. x ≡ render (positional index defaults))
            (feed_positional prim heap self index defaults)
    unfolding feed_positional positional
    positional-Yields index [] h = Yields-pure [] refl
    positional-Yields index (j ∷ rest) (h, hs) =
        Yields-bind (value-Yields j h) λ b e.
          Yields-bind (positional-Yields (suc index) rest hs) λ bs f. Yields-pure _ (cc (e, f))

    pub named-Yields :
        (ps : List (Bytes × ℕ))
        → All (λ p. IsHashable p.1) ps
        → Yields (λ x. x ≡ render (named ps)) (feed_named prim heap self ps)
    unfolding feed_named named
    named-Yields [] h = Yields-pure [] refl
    named-Yields ((name, j) ∷ rest) (h, hs) =
        Yields-bind (value-Yields j h)
          λ b e. Yields-bind (named-Yields rest hs) λ bs f. Yields-pure _ (cc (e, f))
