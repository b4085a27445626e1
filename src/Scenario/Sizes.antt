-- ===== src/Scenario/Sizes.antt =====
-- src/cachau/sizes.py: a list that holds an array, a text twice, itself, and a dataclass with a dict.
use cachau.Fingerprint.Objects.{has}
use cachau.Prelude.{ℕ, zero, suc, List, [], ◌∷◌, true, some, none, ◌≡◌, ◌↔◌, refl, arith}
use cachau.Settings.Estimate.Counted.{estimate_size-Holds}
use cachau.Settings.Estimate.Answers.{children, IsPart-children}
use cachau.Settings.Estimate.Parts.{IsContainer, IsFilled}
use cachau.Settings.Estimate.Walked.{Totals, Distinct, Holds}
use cachau.Settings.Estimate.{
  Sizeable, Contents, mapping, items, dataclass_fields, plain, recursion_error, attribute_error,
  report, estimate_size,
}
use cachau.Prelude.Exec.{ok, raise}

abbrev with_contents : ℕ → Contents → Sizeable
with_contents size held = record {
  memory_usage = none;
  estimated_size = none;
  nbytes = none;
  getsizeof = size;
  contents = held;
}

abbrev heap : ℕ → Sizeable
heap zero = with_contents 88 (items (1 ∷ 2 ∷ 2 ∷ 0 ∷ 3 ∷ []))
heap (suc zero) = record (with_contents 112 (items (2 ∷ []))) { nbytes = some 8000 }
heap (suc (suc zero)) = with_contents 54 plain
heap (suc (suc (suc zero))) = with_contents 48 (dataclass_fields (some 4 ∷ some 2 ∷ []))
heap (suc (suc (suc (suc zero)))) = with_contents 232 (mapping ((2, 1) ∷ []))
heap (suc (suc (suc (suc (suc i))))) = with_contents 28 plain

abbrev universe : List ℕ
universe = 0 ∷ 1 ∷ 2 ∷ 3 ∷ 4 ∷ []

enclosed :
    (i j : ℕ) → has universe i ≡ true → has (children (heap i)) j ≡ true → has universe j ≡ true
unfolding report
enclosed zero j h g = ground (arith, g)
enclosed (suc zero) j h g = absurd (cc)
enclosed (suc (suc zero)) j h g = absurd (cc)
enclosed (suc (suc (suc zero))) j h g = ground (arith, g)
enclosed (suc (suc (suc (suc zero)))) j h g = ground (arith, g)
enclosed (suc (suc (suc (suc (suc i))))) j h g = absurd (cc)

filled : (i : ℕ) → has universe i ≡ true → IsContainer (heap i) → IsFilled (heap i).contents
filled zero h c = tt
filled (suc zero) h c = tt
filled (suc (suc zero)) h c = tt
filled (suc (suc (suc zero))) h c = (λ e. cc, (λ e. cc, tt))
filled (suc (suc (suc (suc zero)))) h c = tt
filled (suc (suc (suc (suc (suc i))))) h c = tt

estimate_size-Holds_example :
    (size : ℕ) × (objects : List ℕ) × (estimate_size heap 6 0 ≡ ok size)
    × Totals heap objects size
    × Distinct heap objects
    × ((j : ℕ) → (has objects j ≡ true) ↔ Holds heap 0 j)
estimate_size-Holds_example =
    estimate_size-Holds heap universe (λ i j m c p. enclosed i j m (IsPart-children (heap i) j c p))
      filled 6 0 refl (omega arith)

estimated : estimate_size heap 6 0 ≡ ok 8534
unfolding estimate_size
estimated = refl

-- A dataclass with a field that is not set.
unset_field :
    estimate_size (λ i. with_contents 16 (dataclass_fields (none ∷ []))) 6 0 ≡ raise attribute_error
unfolding estimate_size
unset_field = refl

-- A frame whose `memory_usage` raises falls back on what it holds; one that answers does not.
failed :
    estimate_size
      (λ i. record (with_contents 16 (mapping ((1, 2) ∷ []))) { memory_usage = some none })
      4
      0
    ≡ ok 48
unfolding estimate_size
failed = refl

answered :
    estimate_size
      (λ i. record (with_contents 16 (mapping ((1, 2) ∷ []))) { memory_usage = some (some 7) })
      3
      0
    ≡ ok 7
unfolding estimate_size
answered = refl

-- A nesting deeper than the calls that Python allows.
too_deep : estimate_size (λ i. with_contents 16 (items (suc i ∷ []))) 50 0 ≡ raise recursion_error
unfolding estimate_size
too_deep = refl
