-- ===== src/Flight/Exclusion.antt =====
-- src/cachau/flight.py: mutual exclusion, exact reference counts, and no leak, for all interleavings.
use cachau.Flight.Threads.{Phase, outside, waiting, inside, leaving, uses, is_inside, sum_over}
use cachau.Flight.{
  Slot, Slots, register, acquire, release, release_ref, counted, with_lock, uncounted,
}
use cachau.Prelude.Dict.{lookup, lookup-insert, lookup-remove}
use cachau.Prelude.{
  Option-cases, inl, inr, str_eq, ◌-◌, ◌==◌, ℕ, ◌+◌, ◌≤◌, String, List, [], ◌∷◌, ◌++◌, Bool, true,
  false, Option, none, some, ◌≡◌, refl, arith, eq_iff, eq_refl, if◌then◌else◌,
}

abbrev pub waiters_of : Option Slot → ℕ
waiters_of none = 0
waiters_of (some slot) = slot.waiters

abbrev pub locks_of : Option Slot → ℕ
locks_of none = 0
locks_of (some slot) = if slot.locked then 1 else 0

-- The registry is what the threads make of it: a key has a slot while some thread uses it, with the
-- number of these as its count, and its lock is held by the threads inside.
pub record Sound (threads : List Phase) (slots : Slots) : Type 0 where
  pub counts : (key : String) → waiters_of (lookup key slots) ≡ sum_over (uses key) threads
  pub locks : (key : String) → locks_of (lookup key slots) ≡ sum_over (is_inside key) threads
  pub present : (key : String) (slot : Slot) → lookup key slots ≡ some slot → 1 ≤ slot.waiters

pub sum_over-append :
    (f : Phase → ℕ) (a : List Phase) (t : Phase) (b : List Phase)
    → sum_over f (a ++ t ∷ b) ≡ f t + sum_over f (a ++ b)
sum_over-append f [] t b = refl
sum_over-append f (x ∷ a) t b = omega (arith, sum_over-append f a t b)

-- One thread moves from `t` to `t'`, and the registry follows it at every key.
moved-Sound :
    (a b : List Phase) (t t' : Phase) (slots slots' : Slots)
    → Sound (a ++ t ∷ b) slots
    → ((j : String)
        → waiters_of (lookup j slots') + uses j t ≡ waiters_of (lookup j slots) + uses j t')
    → ((j : String)
        → locks_of (lookup j slots') + is_inside j t ≡ locks_of (lookup j slots) + is_inside j t')
    → ((j : String) (slot : Slot) → lookup j slots' ≡ some slot → 1 ≤ slot.waiters)
    → Sound (a ++ t' ∷ b) slots'
moved-Sound a b t t' slots slots' h p q r = record {
  counts = λ j.
      omega
        (arith, h.counts j, p j, sum_over-append (uses j) a t b, sum_over-append (uses j) a t' b);
  locks = λ j. omega (
    arith,
    h.locks j,
    q j,
    sum_over-append (is_inside j) a t b,
    sum_over-append (is_inside j) a t' b,
  );
  present = r;
}

-- A key in use has a slot.
pub slot_of :
    (a b : List Phase) (t : Phase) (slots : Slots) (key : String)
    → Sound (a ++ t ∷ b) slots
    → uses key t ≡ 1
    → (slot : Slot) × (lookup key slots ≡ some slot)
slot_of a b t slots key h u = elim (Option-cases (lookup key slots)) [
  | inl e ↦ ground (arith, h.counts key, sum_over-append (uses key) a t b)
  | inr r ↦ r
]

pub lookup-register :
    (key j : String) (slots : Slots)
    → lookup j (register key slots)
      ≡ (if str_eq key j then some (counted (lookup key slots)) else lookup j slots)
unfolding register
lookup-register key j slots = lookup-insert key j (counted (lookup key slots)) slots

-- The lock of a slot that is there.
pub lookup-with_lock :
    (locked : Bool) (key j : String) (slot : Slot) (slots : Slots)
    → lookup j (with_lock locked key (some slot) slots)
      ≡ (if str_eq key j then some (record slot { locked = locked }) else lookup j slots)
lookup-with_lock locked key j slot slots =
    lookup-insert key j (record slot { locked = locked }) slots

pub lookup-uncounted :
    (key j : String) (slot : Slot) (slots : Slots)
    → lookup j (uncounted key (some slot) slots) ≡ (
        if str_eq key j
        then if slot.waiters - 1 == 0
          then none
          else some (record slot { waiters = slot.waiters - 1 })
        else lookup j slots)
lookup-uncounted key j slot slots = ground (
  arith,
  lookup-insert key j (record slot { waiters = slot.waiters - 1 }) slots,
  lookup-remove key j slots,
)

pub arrive-Sound :
    (a b : List Phase) (slots : Slots) (key : String)
    → Sound (a ++ outside ∷ b) slots
    → Sound (a ++ waiting key ∷ b) (register key slots)
arrive-Sound a b slots key h =
    moved-Sound a b _ _ _ _ h (λ j. ground (arith, lookup-register key j slots, eq_iff key j))
      (λ j. ground (arith, lookup-register key j slots, eq_iff key j))
      (λ j slot e. ground (arith, lookup-register key j slots, eq_iff key j, h.present j slot))

pub obtain-Sound :
    (a b : List Phase) (slots : Slots) (key : String) (slot : Slot)
    → lookup key slots ≡ some slot
    → slot.locked ≡ false
    → Sound (a ++ waiting key ∷ b) slots
    → Sound (a ++ inside key ∷ b) (acquire key slots)
unfolding acquire
obtain-Sound a b slots key slot e free h = rw e (
    moved-Sound a b _ _ _ _ h
      (λ j. ground (arith, lookup-with_lock true key j slot slots, eq_iff key j))
      (λ j. ground (arith, lookup-with_lock true key j slot slots, eq_iff key j))
      (λ j other f. ground (
        arith,
        lookup-with_lock true key j slot slots,
        eq_iff key j,
        h.present j other,
        h.present key slot,
      )))

-- Who is inside uses the key.
pub inside_le_uses :
    (key : String) (threads : List Phase)
    → sum_over (is_inside key) threads ≤ sum_over (uses key) threads
inside_le_uses key [] = omega arith
inside_le_uses key (outside ∷ threads) = omega (arith, inside_le_uses key threads)
inside_le_uses key (waiting k ∷ threads) = ground (arith, inside_le_uses key threads)
inside_le_uses key (inside k ∷ threads) = ground (arith, inside_le_uses key threads)
inside_le_uses key (leaving k ∷ threads) = ground (arith, inside_le_uses key threads)

pub unlock-Sound :
    (a b : List Phase) (slots : Slots) (key : String)
    → Sound (a ++ inside key ∷ b) slots
    → Sound (a ++ leaving key ∷ b) (release key slots)
unfolding release
unlock-Sound a b slots key h =
    let (slot, e) = slot_of a b (inside key) slots key h (ground (arith, eq_refl key)) in
    rw e (
      moved-Sound a b _ _ _ _ h
        (λ j. ground (arith, lookup-with_lock false key j slot slots, eq_iff key j))
        (λ j. ground (
          arith,
          lookup-with_lock false key j slot slots,
          eq_iff key j,
          h.locks j,
          sum_over-append (is_inside j) a (inside key) b,
        ))
        (λ j other f. ground (
          arith,
          lookup-with_lock false key j slot slots,
          eq_iff key j,
          h.present j other,
          h.present key slot,
        )))

-- A thread that is not inside gives up its reference.
pub release_ref-Sound :
    (a b : List Phase) (t : Phase) (slots : Slots) (key : String)
    → ((j : String) → uses j t ≡ (if str_eq key j then 1 else 0))
    → ((j : String) → is_inside j t ≡ 0)
    → Sound (a ++ t ∷ b) slots
    → Sound (a ++ outside ∷ b) (release_ref key slots)
unfolding release_ref
release_ref-Sound a b t slots key u i h =
    let (slot, e) = slot_of a b t slots key h (rw (u key, eq_refl key) refl) in
    rw e (
      moved-Sound a b _ _ _ _ h
        (λ j.
          ground (arith, u j, lookup-uncounted key j slot slots, eq_iff key j, h.present key slot))
        (λ j. ground (
          arith,
          u j,
          i j,
          lookup-uncounted key j slot slots,
          eq_iff key j,
          h.locks j,
          h.counts j,
          sum_over-append (is_inside j) a t b,
          sum_over-append (uses j) a t b,
          inside_le_uses j (a ++ b),
        ))
        (λ j other f.
          ground (arith, lookup-uncounted key j slot slots, eq_iff key j, h.present j other)))
