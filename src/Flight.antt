-- ===== src/Flight.antt =====
-- src/cachau/flight.py: `KeyedLocks`, a registry of per-key mutexes with reference counts.
pub mod Threads
pub mod Exclusion
pub mod Interrupts
pub mod Safety
use cachau.Prelude.Dict.{Dict, lookup, insert, remove}
use cachau.Prelude.{ℕ, ◌+◌, ◌-◌, String, Bool, true, false, Option, none, some, ◌==◌, if◌then◌else◌}

-- `[lock, waiter_count]`
pub record Slot : Type 0 where
  pub locked : Bool
  pub waiters : ℕ

abbrev pub Slots : Type 0
Slots = Dict Slot

abbrev pub counted : Option Slot → Slot
counted none = record { locked = false; waiters = 1 }
counted (some slot) = record slot { waiters = slot.waiters + 1 }

-- The first guarded block of `holding`: find or make the slot, and count the caller in.
unfoldable pub register : String → Slots → Slots
register key slots = insert key (counted (lookup key slots)) slots

-- `slot[0].acquire()` and `slot[0].release()`
abbrev pub with_lock : Bool → String → Option Slot → Slots → Slots
with_lock b key none slots = slots
with_lock b key (some slot) slots = insert key (record slot { locked = b }) slots

unfoldable pub acquire : String → Slots → Slots
acquire key slots = with_lock true key (lookup key slots) slots

unfoldable pub release : String → Slots → Slots
release key slots = with_lock false key (lookup key slots) slots

abbrev pub uncounted : String → Option Slot → Slots → Slots
uncounted key none slots = slots
uncounted key (some slot) slots =
    if slot.waiters - 1 == 0
    then remove key slots
    else insert key (record slot { waiters = slot.waiters - 1 }) slots

unfoldable pub release_ref : String → Slots → Slots
release_ref key slots = uncounted key (lookup key slots) slots

-- What a caller that finds the lock free does on entry, and in its `finally` on exit.
unfoldable pub enter : String → Slots → Slots
unfolding register acquire
enter key slots = acquire key (register key slots)

unfoldable pub leave : String → Slots → Slots
unfolding release release_ref
leave key slots = release_ref key (release key slots)
