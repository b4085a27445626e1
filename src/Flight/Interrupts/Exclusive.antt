-- ===== src/Flight/Interrupts/Exclusive.antt =====
-- src/cachau/flight.py: what holds of `KeyedLocks` whatever asynchronous exceptions strike its callers.
use cachau.Flight.Interrupts.{
  count_dropped, IsUser, waits, is_in, leaves, Disturbed, undisturbed, uncounted_arrival, abandoned,
  acquired, unpopped, Attainable, at_rest, and_then,
}
use cachau.Flight.Exclusion.{
  waiters_of, locks_of, sum_over-append, lookup-register, lookup-with_lock, lookup-uncounted,
  inside_le_uses,
}
use cachau.Flight.Threads.{
  Phase, outside, waiting, inside, leaving, System, Step, arrive, obtain, interrupt, unlock, depart,
  uses, is_inside, sum_over,
}
use cachau.Flight.{Slot, Slots, register, acquire, release, release_ref}
use cachau.Prelude.Dict.{lookup, insert, lookup-insert}
use cachau.Prelude.{
  All, true, false, Option-cases, inl, inr, ℕ, ◌+◌, ◌-◌, ◌≤◌, String, List, [], ◌∷◌, ◌++◌, Option,
  none, some, str_eq, ◌≡◌, refl, arith, eq_iff, eq_refl, if◌then◌else◌,
}

-- A key has at least the count of those that use it, and its lock is held where some thread is inside.
record Covered (threads : List Phase) (slots : Slots) : Type 0 where
  counts : (key : String) → sum_over (uses key) threads ≤ waiters_of (lookup key slots)
  locks : (key : String) → sum_over (is_inside key) threads ≤ locks_of (lookup key slots)

at_most_locked : (o : Option Slot) → locks_of o ≤ 1
at_most_locked none = omega arith
at_most_locked (some slot) = ground arith

-- One thread moves from `t` to `t'`.
moved-Covered :
    (a b : List Phase) (t t' : Phase) (slots slots' : Slots)
    → Covered (a ++ t ∷ b) slots
    → ((j : String)
        → uses j t + sum_over (uses j) (a ++ b) ≤ waiters_of (lookup j slots)
        → uses j t' + sum_over (uses j) (a ++ b) ≤ waiters_of (lookup j slots'))
    → ((j : String)
        → uses j t + sum_over (uses j) (a ++ b) ≤ waiters_of (lookup j slots)
        → is_inside j t + sum_over (is_inside j) (a ++ b) ≤ locks_of (lookup j slots)
        → is_inside j t' + sum_over (is_inside j) (a ++ b) ≤ locks_of (lookup j slots'))
    → Covered (a ++ t' ∷ b) slots'
moved-Covered a b t t' slots slots' h p q = record {
  counts = λ j.
      let before : uses j t + sum_over (uses j) (a ++ b) ≤ waiters_of (lookup j slots) =
        omega (arith, h.counts j, sum_over-append (uses j) a t b) in
      omega (arith, p j before, sum_over-append (uses j) a t' b);
  locks = λ j.
      let users : uses j t + sum_over (uses j) (a ++ b) ≤ waiters_of (lookup j slots) =
        omega (arith, h.counts j, sum_over-append (uses j) a t b) in
      let before : is_inside j t + sum_over (is_inside j) (a ++ b) ≤ locks_of (lookup j slots) =
        omega (arith, h.locks j, sum_over-append (is_inside j) a t b) in
      omega (arith, q j users before, sum_over-append (is_inside j) a t' b);
}

-- A thread goes outside, and the registry stays.
gone-Covered :
    (a b : List Phase) (t : Phase) (slots : Slots)
    → Covered (a ++ t ∷ b) slots
    → Covered (a ++ outside ∷ b) slots
gone-Covered a b t slots h =
    moved-Covered a b t outside slots slots h (λ j u. omega (arith, u)) (λ j u l. omega (arith, l))

arrive-Covered :
    (a b : List Phase) (slots : Slots) (key : String)
    → Covered (a ++ outside ∷ b) slots
    → Covered (a ++ waiting key ∷ b) (register key slots)
arrive-Covered a b slots key h =
    moved-Covered a b outside (waiting key) slots (register key slots) h
      (λ j u. ground (arith, u, lookup-register key j slots, eq_iff key j))
      (λ j u l. ground (arith, l, lookup-register key j slots, eq_iff key j))

obtain-Covered :
    (a b : List Phase) (slots : Slots) (key : String) (slot : Slot)
    → lookup key slots ≡ some slot
    → slot.locked ≡ false
    → Covered (a ++ waiting key ∷ b) slots
    → Covered (a ++ inside key ∷ b) (acquire key slots)
unfolding acquire
obtain-Covered a b slots key slot e free h = rw e (
    moved-Covered a b (waiting key) (inside key) slots _ h
      (λ j u. ground (arith, u, lookup-with_lock true key j slot slots, eq_iff key j))
      (λ j u l. ground (arith, l, lookup-with_lock true key j slot slots, eq_iff key j)))

-- A key in use has a slot.
slot_in_use :
    (a b : List Phase) (t : Phase) (slots : Slots) (key : String)
    → Covered (a ++ t ∷ b) slots
    → uses key t ≡ 1
    → (slot : Slot) × (lookup key slots ≡ some slot)
slot_in_use a b t slots key h u = elim (Option-cases (lookup key slots)) [
  | inl e ↦ ground (arith, h.counts key, sum_over-append (uses key) a t b)
  | inr r ↦ r
]

unlock-Covered :
    (a b : List Phase) (slots : Slots) (key : String)
    → Covered (a ++ inside key ∷ b) slots
    → Covered (a ++ leaving key ∷ b) (release key slots)
unfolding release
unlock-Covered a b slots key h =
    let (slot, e) = slot_in_use a b (inside key) slots key h (ground (arith, eq_refl key)) in
    rw e (
      moved-Covered a b (inside key) (leaving key) slots _ h
        (λ j u. ground (arith, u, lookup-with_lock false key j slot slots, eq_iff key j))
        (λ j u l. ground (
          arith,
          l,
          lookup-with_lock false key j slot slots,
          eq_iff key j,
          at_most_locked (lookup j slots),
        )))

user_uses :
    {key : String} {t : Phase}
    → IsUser key t
    → (j : String) → uses j t ≡ (if str_eq key j then 1 else 0)
user_uses waits j = refl
user_uses is_in j = refl
user_uses leaves j = refl

release_ref-Covered :
    (a b : List Phase) (t : Phase) (slots : Slots) (key : String)
    → IsUser key t
    → Covered (a ++ t ∷ b) slots
    → Covered (a ++ outside ∷ b) (release_ref key slots)
unfolding release_ref
release_ref-Covered a b t slots key i h =
    let (slot, e) = slot_in_use a b t slots key h (rw (user_uses i key, eq_refl key) refl) in
    rw e (
      moved-Covered a b t outside slots _ h
        (λ j u. ground (arith, u, user_uses i j, lookup-uncounted key j slot slots, eq_iff key j))
        (λ j u l. ground (
          arith,
          u,
          l,
          user_uses i j,
          lookup-uncounted key j slot slots,
          eq_iff key j,
          inside_le_uses j (a ++ b),
        )))

unpopped-Covered :
    (a b : List Phase) (t : Phase) (slots : Slots) (key : String)
    → IsUser key t
    → Covered (a ++ t ∷ b) slots
    → Covered (a ++ outside ∷ b) (count_dropped key (lookup key slots) slots)
unpopped-Covered a b t slots key i h =
    let (slot, e) = slot_in_use a b t slots key h (rw (user_uses i key, eq_refl key) refl) in
    let fewer =
      λ (j : String). lookup-insert key j (record slot { waiters = slot.waiters - 1 }) slots in
    rw e (
      moved-Covered a b t outside slots _ h
        (λ j u. ground (arith, u, user_uses i j, fewer j, eq_iff key j))
        (λ j u l. ground (arith, l, fewer j, eq_iff key j)))

made-Covered :
    (a b : List Phase) (slots : Slots) (key : String)
    → lookup key slots ≡ none
    → Covered (a ++ outside ∷ b) slots
    → Covered (a ++ outside ∷ b) (insert key (record { locked = false; waiters = 0 }) slots)
made-Covered a b slots key e h =
    let made = λ (j : String). lookup-insert key j (record { locked = false; waiters = 0 }) slots in
    moved-Covered a b outside outside slots _ h (λ j u. ground (arith, u, e, made j, eq_iff key j))
      (λ j u l. ground (arith, l, e, made j, eq_iff key j))

Step-Covered : {a b : System} → Step a b → Covered a.threads a.slots → Covered b.threads b.slots
Step-Covered (arrive a b slots key) h = arrive-Covered a b slots key h
Step-Covered (obtain a b slots key slot e free) h = obtain-Covered a b slots key slot e free h
Step-Covered (interrupt a b slots key) h = release_ref-Covered a b (waiting key) slots key waits h
Step-Covered (unlock a b slots key) h = unlock-Covered a b slots key h
Step-Covered (depart a b slots key) h = release_ref-Covered a b (leaving key) slots key leaves h

Disturbed-Covered :
    {a b : System} → Disturbed a b → Covered a.threads a.slots → Covered b.threads b.slots
Disturbed-Covered (undisturbed step) h = Step-Covered step h
Disturbed-Covered (uncounted_arrival a b slots key e) h = made-Covered a b slots key e h
Disturbed-Covered (abandoned a b slots key t i) h = gone-Covered a b t slots h
Disturbed-Covered (acquired a b slots key) h =
    release_ref-Covered a b (inside key) slots key is_in h
Disturbed-Covered (unpopped a b slots key t i) h = unpopped-Covered a b t slots key i h

idle :
    (f : Phase → ℕ) (threads : List Phase)
    → f outside ≡ 0
    → All (λ t. t ≡ outside) threads
    → sum_over f threads ≡ 0
idle f [] z q = refl
idle f (t ∷ threads) z (e, q) = rw e (omega (arith, z, idle f threads z q))

Attainable-Covered : {a : System} → Attainable a → Covered a.threads a.slots
Attainable-Covered (at_rest threads q) = record {
  counts = λ key. omega (arith, idle (uses key) threads refl q);
  locks = λ key. omega (arith, idle (is_inside key) threads refl q);
}
Attainable-Covered (and_then r step) = Disturbed-Covered step (Attainable-Covered r)

-- In no interleaving are two threads in the body for the same key, whatever asynchronous exceptions
-- strike them, at whatever point of `holding`.
pub Attainable-exclusive :
    {a : System} → Attainable a → (key : String) → sum_over (is_inside key) a.threads ≤ 1
Attainable-exclusive {a} r key =
    omega (arith, (Attainable-Covered r).locks key, at_most_locked (lookup key a.slots))
