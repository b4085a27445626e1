-- ===== src/Settings/Estimate/Counted.antt =====
-- src/cachau/sizes.py: `estimate_size` against the objects that a value holds.
use cachau.Fingerprint.Objects.{has}
use cachau.Fingerprint.Unseen.{unseen, unseen-lt, unseen-length}
use cachau.Prelude.{
  ℕ, zero, suc, ◌+◌, ◌<◌, ◌≤◌, List, [], ◌∷◌, true, Option, some, none, All, ◌≢◌, ◌≡◌, ◌↔◌, refl,
  ap, arith, length, Bool-cases, inl, inr,
}
use cachau.Settings.Estimate.Walked.{
  own, held_by, total, Distinct, Totals, total-Totals, Holds, itself, inside, Walked, Walked-nil,
  Walked-cons, Walked-old, Walked-new,
}
use mathlib.Core.Path.{subst}
use cachau.Prelude.Exec.{ok}
use cachau.Settings.Estimate.Answers.{children-IsPart, IsPart-children, report-filled}
use cachau.Settings.Estimate.Parts.{IsContainer, IsPart, IsFilled, present}
use cachau.Settings.Estimate.{Sizeable, Walk, report, walk_all, walk, size_only, estimate_size}

unseen_mono :
    (universe seen after : List ℕ)
    → ((j : ℕ) → has seen j ≡ true → has after j ≡ true)
    → unseen universe after ≤ unseen universe seen
unfolding unseen
unseen_mono [] seen after h = omega arith
unseen_mono (i ∷ universe) seen after h = ground (arith, h i, unseen_mono universe seen after h)

module _ (heap : ℕ → Sizeable) (universe : List ℕ)
    (closed : (i j : ℕ)
      → has universe i ≡ true
      → IsContainer (heap i)
      → IsPart (heap i).contents j
      → has universe j ≡ true)
    (filled : (i : ℕ)
      → has universe i ≡ true
      → IsContainer (heap i)
      → IsFilled (heap i).contents) where
  abbrev Finds : List ℕ → List ℕ → Walk → Type 0
  Finds roots seen o =
      (n : ℕ) × (after : List ℕ) × (o ≡ ok (n, after)) × Walked heap roots seen n after

  abbrev Walks : ℕ → Type 0
  Walks fuel =
      (v : ℕ) (seen : List ℕ)
      → has universe v ≡ true
      → unseen universe seen < fuel
      → Finds (v ∷ []) seen (walk heap fuel v seen)

  all_walk :
      (fuel : ℕ) (walks : Walks fuel) (xs : List (Option ℕ)) (seen : List ℕ)
      → All (λ f. f ≢ none) xs
      → ((j : ℕ) → has (present xs) j ≡ true → has universe j ≡ true)
      → unseen universe seen < fuel
      → Finds (present xs) seen (walk_all (walk heap fuel) xs seen)
  unfolding walk_all
  all_walk fuel walks [] seen set known h = (0, seen, refl, Walked-nil heap seen)
  all_walk fuel walks (none ∷ xs) seen (set, sets) known h = absurd (set refl)
  all_walk fuel walks (some x ∷ xs) seen (set, sets) known h =
      let (n, between, e, w) = walks x seen (known x (ground arith)) h in
      let (m, after, f, v) =
        all_walk fuel walks xs between sets (λ j i. known j (ground (arith, i)))
          (omega (arith, h, unseen_mono universe seen between w.kept)) in
      (
        n + m,
        after,
        rw (walk_all, e, f) refl,
        Walked-cons heap x (present xs) seen n between m after w v,
      )

  walks : (fuel : ℕ) → Walks fuel
  unfolding walk
  walks zero v seen m h = absurd (omega (arith, h))
  walks (suc fuel) v seen m h = elim (Bool-cases (has seen v)) [
    | inl old ↦ (0, seen, rw (walk, old) refl, Walked-old heap v seen old)
    | inr new ↦
        let (n, after, e, w) =
          all_walk fuel (walks fuel) (report (heap v)).1 (v ∷ seen)
            (report-filled (heap v) (filled v m))
            (λ j i. let (c, p) = children-IsPart (heap v) j i in closed v j m c p)
            (omega (arith, h, unseen-lt universe seen v m new)) in
        (own heap v + n, after, rw (walk, new, e) refl, Walked-new heap v seen n after new w)
  ]

  reaches :
      (seen : List ℕ) {r j : ℕ}
      → ((i : ℕ) → has seen i ≡ true → (k : ℕ) → has (held_by heap i) k ≡ true → has seen k ≡ true)
      → has seen r ≡ true
      → Holds heap r j
      → has seen j ≡ true
  reaches seen whole h itself = h
  reaches seen {r} whole h (inside {i = i} {j = j} c p q) =
      reaches seen whole (whole i h j (IsPart-children (heap i) j c p)) q

  whole :
      {roots after : List ℕ} {n : ℕ}
      → Walked heap roots [] n after
      → (i : ℕ) → has after i ≡ true
      → (k : ℕ) → has (held_by heap i) k ≡ true
      → has after k ≡ true
  whole w i p = elim (w.closed i p) [ inl q ↦ absurd (cc) | inr all ↦ all ]

  -- `estimate_size` adds up what the value and every object that it holds count for themselves, each once,
  -- however often it is shared and whatever cycles there are. An object counts the size that its
  -- `memory_usage` reports; or else what its `estimated_size`, or else its `nbytes`, reports and its own
  -- size; or else its own size, and only then does it hold something: a dict its keys and its items, a
  -- list, a tuple or a set its items, a dataclass its fields, at any depth. It is for a set of objects
  -- that has the value and what its members hold, in which no dataclass has a field that is not set, and
  -- for a depth of calls above their number; then the walk raises nothing.
  pub estimate_size-Holds :
      (depth value : ℕ)
      → has universe value ≡ true
      → length universe < depth
      → (size : ℕ) × (objects : List ℕ) × (estimate_size heap depth value ≡ ok size)
        × Totals heap objects size
        × Distinct heap objects
        × ((j : ℕ) → (has objects j ≡ true) ↔ Holds heap value j)
  unfolding estimate_size total Distinct
  estimate_size-Holds depth value m h =
      let (n, after, e, w) = walks depth value [] m (omega (arith, h, unseen-length universe [])) in
      (
        n,
        after,
        ap (size_only heap) e,
        (let same : total heap after ≡ n = omega (arith, w.counted) in
            subst (Totals heap after) same (total-Totals heap after)),
        w.distinct tt,
        λ j. (
          λ p. elim (w.held j p) [
            | inl q ↦ absurd (cc)
            | inr (r, q, c) ↦ let same : value ≡ r = ground (arith, q) in rw same c
          ],
          λ p. reaches after (whole w) (w.rooted value (ground arith)) p,
        ),
      )
