-- ===== src/Settings/Estimate/Walked.antt =====
-- src/cachau/sizes.py: what a walk from some objects has seen and counted.
use cachau.Fingerprint.Objects.{has}
use cachau.Prelude.{ℕ, ◌+◌, List, [], ◌∷◌, true, false, ◌≡◌, ◌⊎◌, arith, Bool-cases, inl, inr, ◌==◌}
use cachau.Settings.Estimate.Answers.{children, children-IsPart, report-Counts}
use cachau.Settings.Estimate.Parts.{IsContainer, IsPart, Counts}
use cachau.Settings.Estimate.{Sizeable, report}

module _ (heap : ℕ → Sizeable) where
  abbrev pub own : ℕ → ℕ
  own j = (report (heap j)).0

  abbrev pub held_by : ℕ → List ℕ
  held_by j = children (heap j)

  -- What the objects count for themselves.
  unfoldable pub total : List ℕ → ℕ
  total [] = 0
  total (j ∷ objects) = own j + total objects

  -- No object twice.
  unfoldable pub Distinct : List ℕ → Type 0
  Distinct [] = Unit
  Distinct (j ∷ objects) = (has objects j ≡ false) × Distinct objects

  -- The second is the first, or held by it at some depth through objects whose contents count.
  pub data Holds : ℕ → ℕ → Type 0 where
    itself : {j : ℕ} → Holds j j
    inside : {i j k : ℕ} → IsContainer (heap i) → IsPart (heap i).contents j → Holds j k → Holds i k

  -- The sum of what the objects count for themselves.
  pub data Totals : List ℕ → ℕ → Type 0 where
    nothing : Totals [] 0
    also :
        {j n m : ℕ} {objects : List ℕ}
        → Counts (heap j) n
        → Totals objects m
        → Totals (j ∷ objects) (n + m)

  pub total-Totals : (objects : List ℕ) → Totals objects (total objects)
  unfolding total
  total-Totals [] = nothing
  total-Totals (j ∷ objects) = also (report-Counts (heap j)) (total-Totals objects)

  -- From `seen`, a walk of the roots counted `n` and saw `after` in the end.
  pub record Walked (roots seen : List ℕ) (n : ℕ) (after : List ℕ) : Type 0 where
    pub kept : (j : ℕ) → has seen j ≡ true → has after j ≡ true
    pub rooted : (j : ℕ) → has roots j ≡ true → has after j ≡ true
    pub counted : total after ≡ n + total seen
    pub distinct : Distinct seen → Distinct after
    pub held :
        (j : ℕ)
        → has after j ≡ true
        → (has seen j ≡ true) ⊎ ((r : ℕ) × (has roots r ≡ true) × Holds r j)
    pub closed :
        (j : ℕ)
        → has after j ≡ true
        → (has seen j ≡ true) ⊎ ((k : ℕ) → has (held_by j) k ≡ true → has after k ≡ true)

  pub Walked-nil : (seen : List ℕ) → Walked [] seen 0 seen
  Walked-nil seen = record {
    kept = λ j h. h;
    rooted = λ j h. cc;
    counted = omega arith;
    distinct = λ h. h;
    held = λ j h. inl h;
    closed = λ j h. inl h;
  }

  has_head : (x j : ℕ) (xs : List ℕ) → has (x ∷ xs) j ≡ true → (x ≡ j) ⊎ (has xs j ≡ true)
  has_head x j xs h = elim (Bool-cases (x == j)) [
    | inl same ↦ inl (ground (arith, same))
    | inr other ↦ inr (ground (arith, other, h))
  ]

  has_first : (x : ℕ) (xs : List ℕ) → has (x ∷ xs) x ≡ true
  has_first x xs = ground arith

  has_rest : (x j : ℕ) (xs : List ℕ) → has xs j ≡ true → has (x ∷ xs) j ≡ true
  has_rest x j xs h = ground (arith, h)

  pub Walked-cons :
      (x : ℕ) (xs seen : List ℕ) (n : ℕ) (between : List ℕ) (m : ℕ) (after : List ℕ)
      → Walked (x ∷ []) seen n between
      → Walked xs between m after
      → Walked (x ∷ xs) seen (n + m) after
  Walked-cons x xs seen n between m after w v = record {
    kept = λ j h. v.kept j (w.kept j h);
    rooted = λ j h. elim (has_head x j xs h) [
      | inl e ↦ v.kept j (w.rooted j (rw e (has_first j [])))
      | inr e ↦ v.rooted j e
    ];
    counted = omega (arith, w.counted, v.counted);
    distinct = λ h. v.distinct (w.distinct h);
    held = λ j h. elim (v.held j h) [
      | inr (r, e, p) ↦ inr (r, has_rest x r xs e, p)
      | inl e ↦ elim (w.held j e) [ inl f ↦ inl f | inr (r, f, p) ↦ inr (r, ground (arith, f), p) ]
    ];
    closed = λ j h. elim (v.closed j h) [
      | inr all ↦ inr all
      | inl e ↦ elim (w.closed j e) [ inl f ↦ inl f | inr all ↦ inr (λ k i. v.kept k (all k i)) ]
    ];
  }

  pub Walked-old : (v : ℕ) (seen : List ℕ) → has seen v ≡ true → Walked (v ∷ []) seen 0 seen
  Walked-old v seen old = record {
    kept = λ j h. h;
    rooted = λ j h. elim (has_head v j [] h) [ inl e ↦ rw (← e) old | inr e ↦ absurd (cc) ];
    counted = omega arith;
    distinct = λ h. h;
    held = λ j h. inl h;
    closed = λ j h. inl h;
  }

  pub Walked-new :
      (v : ℕ) (seen : List ℕ) (m : ℕ) (after : List ℕ)
      → has seen v ≡ false
      → Walked (held_by v) (v ∷ seen) m after
      → Walked (v ∷ []) seen (own v + m) after
  unfolding total Distinct
  Walked-new v seen m after new w = record {
    kept = λ j h. w.kept j (has_rest v j seen h);
    rooted = λ j h. elim (has_head v j [] h) [
      | inl e ↦ w.kept j (rw e (has_first j seen))
      | inr e ↦ absurd (cc)
    ];
    counted = omega (arith, w.counted);
    distinct = λ h. w.distinct (new, h);
    held = λ j h. elim (w.held j h) [
      | inr (r, e, p) ↦
          let (c, part) = children-IsPart (heap v) r e in inr (v, has_first v [], inside c part p)
      | inl e ↦ elim (has_head v j seen e) [
        | inl f ↦ inr (v, has_first v [], rw f itself)
        | inr f ↦ inl f
      ]
    ];
    closed = λ j h. elim (w.closed j h) [
      | inr all ↦ inr all
      | inl e ↦ elim (has_head v j seen e) [
        | inl f ↦ inr (λ k i. w.rooted k (rw f i))
        | inr f ↦ inl f
      ]
    ];
  }
