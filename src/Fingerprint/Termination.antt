-- ===== src/Fingerprint/Termination.antt =====
-- src/cachau/fingerprint.py: how deep `_fingerprint` recurses.
use cachau.Disk.Header.{ascii}
use cachau.Fingerprint.Code.{Code}
use cachau.Fingerprint.Depth.{IsClosed, Within, Within-pure, Within-fail, Within-mark, Within-bind}
use cachau.Fingerprint.Functions.{
  Failure, configuration, attribute, out_of_fuel, Fed, freevars, is_empty, titled, feed_reference,
  feed_bound, feed_bound_value, feed_cells, feed_closure, feed_positional, feed_named,
  feed_defaults, feed_coded, feed_function, feed_parts, option_parts, Primitives,
  function_fingerprint, fingerprint,
}
use cachau.Fingerprint.Objects.{OptionValue, Object, Heap, has, name_lt, parts}
use cachau.Fingerprint.Unseen.{unseen, unseen-lt, unseen-length}
use cachau.Keys.Framing.{Bytes}
use cachau.Prelude.Exec.{Result, ok, raise, pure, continue, ◌>>=◌}
use cachau.Prelude.Sort.{sorted, All-sorted}
use cachau.Prelude.{
  ℕ, zero, suc, ◌≤◌, List, [], ◌∷◌, ◌++◌, ◌≡◌, ◌≢◌, refl, Bool, true, false, Option, none, some,
  arith, All, length,
}

module _ (prim : Primitives) (heap : Heap) (universe : List ℕ) where
  -- The recursive calls are fit for objects that are not seen.
  abbrev Visits : ℕ → (ℕ → Fed) → Type 0
  Visits n self =
      (j : ℕ) (seen : List ℕ)
      → has universe j ≡ true
      → has seen j ≡ false
      → unseen universe seen ≤ n
      → ((self j seen).0 ≢ raise out_of_fuel) × (unseen universe (self j seen).1 ≤ n)

  abbrev Fit : ℕ → Result Failure Bytes × List ℕ → Type 0
  Fit n (r, seen) = (r ≢ raise out_of_fuel) × (unseen universe seen ≤ n)

  module _ (n : ℕ) (self : ℕ → Fed) (visits : Visits n self) where
    reference_fits :
        (j : ℕ) (seen : List ℕ) (b : Bool)
        → has universe j ≡ true
        → has seen j ≡ b
        → unseen universe seen ≤ n
        → Fit n (feed_reference prim heap self b j seen)
    unfolding feed_reference
    reference_fits j seen true m e h = (Within-pure universe n _).at seen h
    reference_fits j seen false m e h = go (self j seen).0 (self j seen).1 (visits j seen m e h)
      where
        go :
            (r : Result Failure Bytes) (t : List ℕ)
            → Fit n (r, t)
            → Fit n (continue r (λ d. pure (ascii "<function:" ++ (d ++ ascii ">"))) t)
        go (ok a) t (g, h) = ((λ e. cc), h)
        go (raise x) t (g, h) = ((λ e. g cc), h)

    bound_fits :
        (o : Option Bytes) (callable : Bool) (j : ℕ)
        → has universe j ≡ true
        → Within universe n (feed_bound prim heap self o callable j)
    unfolding feed_bound
    bound_fits (some b) callable j m = Within-pure universe n _
    bound_fits none true j m = record { at = λ seen h. reference_fits j seen (has seen j) m refl h }
    bound_fits none false j m = Within-pure universe n _

    value_fits :
        (j : ℕ) → has universe j ≡ true → Within universe n (feed_bound_value prim heap self j)
    unfolding feed_bound_value
    value_fits j m = bound_fits _ _ j m

    cells_fit :
        (names : List Bytes) (cells : List (Option ℕ))
        → All (λ c. (j : ℕ) → c ≡ some j → has universe j ≡ true) cells
        → Within universe n (feed_cells prim heap self names cells)
    unfolding feed_cells
    cells_fit [] cells h = Within-pure universe n _
    cells_fit (name ∷ names) [] h = Within-pure universe n _
    cells_fit (name ∷ names) (none ∷ cells) (h, hs) =
        Within-bind universe n (cells_fit names cells hs) (λ b. Within-pure universe n _)
    cells_fit (name ∷ names) (some j ∷ cells) (h, hs) =
        Within-bind universe n (value_fits j (h j refl))
          λ b. Within-bind universe n (cells_fit names cells hs) (λ b. Within-pure universe n _)

    closure_fits :
        (names : List Bytes) (cells : List (Option ℕ))
        → All (λ c. (j : ℕ) → c ≡ some j → has universe j ≡ true) cells
        → Within universe n (feed_closure prim heap self names cells)
    unfolding feed_closure
    closure_fits [] cells h = Within-pure universe n _
    closure_fits (name ∷ names) [] h = Within-pure universe n _
    closure_fits (name ∷ names) (cell ∷ cells) h =
        Within-bind universe n (cells_fit (name ∷ names) (cell ∷ cells) h)
          (λ b. Within-pure universe n _)

    positional_fits :
        (index : ℕ) (defaults : List ℕ)
        → All (λ j. has universe j ≡ true) defaults
        → Within universe n (feed_positional prim heap self index defaults)
    unfolding feed_positional
    positional_fits index [] h = Within-pure universe n _
    positional_fits index (j ∷ rest) (h, hs) = Within-bind universe n (value_fits j h) λ b.
        Within-bind universe n (positional_fits (suc index) rest hs) (λ b. Within-pure universe n _)

    named_fits :
        (ps : List (Bytes × ℕ))
        → All (λ p. has universe p.1 ≡ true) ps
        → Within universe n (feed_named prim heap self ps)
    unfolding feed_named
    named_fits [] h = Within-pure universe n _
    named_fits ((name, j) ∷ rest) (h, hs) =
        Within-bind universe n (value_fits j h)
          λ b. Within-bind universe n (named_fits rest hs) (λ b. Within-pure universe n _)

    titled_fits :
        (title : Bytes) (b : Bool) (m : Fed)
        → Within universe n m
        → Within universe n (titled title b m)
    unfolding titled
    titled_fits title true m h = Within-pure universe n _
    titled_fits title false m h = Within-bind universe n h (λ b. Within-pure universe n _)

    defaults_fit :
        (defaults : List ℕ) (kwdefaults : List (Bytes × ℕ))
        → All (λ j. has universe j ≡ true) defaults
        → All (λ p. has universe p.1 ≡ true) kwdefaults
        → Within universe n (feed_defaults prim heap self defaults kwdefaults)
    unfolding feed_defaults
    defaults_fit defaults kwdefaults h g =
        Within-bind universe n
          (titled_fits (ascii "|defaults:") (is_empty defaults)
            (feed_positional prim heap self 0 defaults) (positional_fits 0 defaults h))
          λ a.
            Within-bind universe n
              (titled_fits (ascii "|kwdefaults:") (is_empty kwdefaults)
                (feed_named prim heap self (sorted name_lt kwdefaults))
                (named_fits (sorted name_lt kwdefaults) (All-sorted name_lt _ kwdefaults g)))
              (λ b. Within-pure universe n _)

    coded_fits :
        (c : Option Code) (o : Object)
        → All (λ c. (j : ℕ) → c ≡ some j → has universe j ≡ true) o.closure
        → All (λ j. has universe j ≡ true) o.defaults
        → All (λ p. has universe p.1 ≡ true) o.kwdefaults
        → Within universe n (feed_coded prim heap self c o)
    unfolding feed_coded
    coded_fits none o cells defaults kwdefaults = Within-fail universe n attribute (λ e. cc)
    coded_fits (some c) o cells defaults kwdefaults =
        Within-bind universe n (closure_fits (freevars c) o.closure cells) λ a.
          Within-bind universe n (defaults_fit o.defaults o.kwdefaults defaults kwdefaults)
            (λ b. Within-pure universe n _)

    function_fits :
        (func : ℕ)
        → IsClosed universe heap
        → has universe func ≡ true
        → Within universe n (feed_function prim heap self (heap func))
    function_fits func closed m =
        coded_fits (heap func).code (heap func) (closed.cells func m) (closed.defaults func m)
          (closed.kwdefaults func m)

    plain_fits :
        (closed : IsClosed universe heap) (func : ℕ)
        → has universe func ≡ true
        → Within universe n
            (feed_function prim heap self (heap func) >>= λ b. pure (prim.hexdigest b))
    plain_fits closed func m =
        Within-bind universe n (function_fits func closed m) (λ b. Within-pure universe n _)

    parts_fit :
        (closed : IsClosed universe heap)
        → (func : ℕ) (p : Option ℕ) (options : Option (List (Bytes × OptionValue)))
          (c : Option Code)
        → has universe func ≡ true
        → ((j : ℕ) → p ≡ some j → has universe j ≡ true)
        → Within universe n (feed_parts prim heap self func (parts p options) c)
    unfolding feed_parts
    parts_fit closed func (some f) (some options) c m h =
        Within-bind universe n (Within-mark universe n f) λ _.
          Within-bind universe n (function_fits f closed (h f refl)) (λ b.
            Within-pure universe n
              (prim.hexdigest (b ++ option_parts prim heap (heap func) options)))
    parts_fit closed func (some f) none none m h = Within-fail universe n configuration (λ e. cc)
    parts_fit closed func none options none m h = Within-fail universe n configuration (λ e. cc)
    parts_fit closed func (some f) none (some c) m h = plain_fits closed func m
    parts_fit closed func none options (some c) m h = plain_fits closed func m

  visited : (closed : IsClosed universe heap) (fuel : ℕ) → Visits fuel (fingerprint prim heap fuel)
  unfolding fingerprint
  visited closed zero j seen m e h = absurd (omega (arith, h, unseen-lt universe seen j m e))
  visited closed (suc fuel) j seen m e h =
      let (g, t) =
        (parts_fit fuel (fingerprint prim heap fuel) (visited closed fuel) closed j (heap j).py_func
            (heap j).options (heap j).code m (λ f. closed.py_func j f m)).at
          (j ∷ seen) (omega (arith, h, unseen-lt universe seen j m e)) in
      (g, omega (arith, t))

  -- A fingerprint never runs out of a depth of as many calls as there are functions, for any set of
  -- functions that has the one fingerprinted and all that its members refer to, by closure cells,
  -- defaults or a dispatcher's Python function, and with every other shape left free: references may
  -- form cycles.
  pub fingerprint_ends :
      (func : ℕ)
      → IsClosed universe heap
      → has universe func ≡ true
      → function_fingerprint prim heap (length universe) func ≢ raise out_of_fuel
  unfolding function_fingerprint
  fingerprint_ends func closed m =
      (visited closed (length universe) func [] m refl (unseen-length universe [])).0
