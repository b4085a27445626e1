-- ===== src/Flight/Interrupts.antt =====
-- src/cachau/flight.py: `holding` where an asynchronous exception may strike at any point, and what it
-- leaves behind then.
pub mod Exclusive
use cachau.Flight.Exclusion.{
  waiters_of, locks_of, sum_over-append, lookup-register, lookup-with_lock, lookup-uncounted,
  inside_le_uses,
}
use cachau.Flight.Threads.{
  Phase, outside, waiting, inside, leaving, System, Step, arrive, obtain, interrupt, unlock, depart,
  uses, is_inside, sum_over,
}
use cachau.Flight.{Slot, Slots, register, acquire, release, release_ref}
use cachau.Prelude.Dict.{lookup, insert, lookup-insert}
use cachau.Prelude.{
  All, true, false, Option-cases, inl, inr, ℕ, ◌+◌, ◌-◌, ◌≤◌, String, List, [], ◌∷◌, ◌++◌, Option,
  none, some, str_eq, ◌≡◌, refl, arith, eq_iff, eq_refl, if◌then◌else◌,
}

-- A count that went down, with the slot left where it is.
abbrev pub count_dropped : String → Option Slot → Slots → Slots
count_dropped key none slots = slots
count_dropped key (some slot) slots = insert key (record slot { waiters = slot.waiters - 1 }) slots

-- A thread that was counted and has not given up its reference.
pub data IsUser (key : String) : Phase → Type 0 where
  waits : IsUser key (waiting key)
  is_in : IsUser key (inside key)
  leaves : IsUser key (leaving key)

-- A step, or an exception at a point where `Step` has none.
pub data Disturbed : System → System → Type 0 where
  undisturbed : {a b : System} → Step a b → Disturbed a b
  -- after the slot is made and before it counts the caller
  uncounted_arrival :
      (before after : List Phase) (slots : Slots) (key : String)
      → lookup key slots ≡ none
      → Disturbed
          (record { threads = before ++ outside ∷ after; slots = slots })
          (record {
            threads = before ++ outside ∷ after;
            slots = insert key (record { locked = false; waiters = 0 }) slots;
          })
  -- and all it did is kept: after the caller is counted and before the `try`, between the two `try`, in
  -- the `finally` before the release, or between the release and `_release_ref`
  abandoned :
      (before after : List Phase) (slots : Slots) (key : String) (t : Phase)
      → IsUser key t
      → Disturbed
          (record { threads = before ++ t ∷ after; slots = slots })
          (record { threads = before ++ outside ∷ after; slots = slots })
  -- after `acquire` has the lock, in the first `try`: the reference is released, and not the lock
  acquired :
      (before after : List Phase) (slots : Slots) (key : String)
      → Disturbed
          (record { threads = before ++ inside key ∷ after; slots = slots })
          (record { threads = before ++ outside ∷ after; slots = release_ref key slots })
  -- in `_release_ref`, after the count went down
  unpopped :
      (before after : List Phase) (slots : Slots) (key : String) (t : Phase)
      → IsUser key t
      → Disturbed
          (record { threads = before ++ t ∷ after; slots = slots })
          (record {
            threads = before ++ outside ∷ after;
            slots = count_dropped key (lookup key slots) slots;
          })

-- What can come of threads that are all outside, and an empty registry, with exceptions anywhere.
pub data Attainable : System → Type 0 where
  at_rest :
      (threads : List Phase)
      → All (λ t. t ≡ outside) threads
      → Attainable (record { threads = threads; slots = [] })
  and_then : {a b : System} → Attainable a → Disturbed a b → Attainable b
