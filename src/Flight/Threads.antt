-- ===== src/Flight/Threads.antt =====
-- src/cachau/flight.py: the threads that pass through `holding`, step by step.
-- A step is what happens between two points where another thread may run: the guarded block that
-- counts the caller in, the acquisition of the key's lock, its release, and `_release_ref`. The lock
-- that a caller holds on to is the one that stands under its key, which stays there while it is used.
-- An asynchronous exception is a step here only while the caller waits in `acquire`; Flight.Interrupts
-- adds those that strike elsewhere, after which a key may stay behind.
use cachau.Flight.{Slot, Slots, register, acquire, release, release_ref}
use cachau.Prelude.Dict.{lookup}
use cachau.Prelude.{
  All, ℕ, ◌+◌, String, List, [], ◌∷◌, ◌++◌, false, some, str_eq, ◌≡◌, if◌then◌else◌,
}

-- Where a thread is: outside, blocked in `acquire`, in the body, or between `release` and
-- `_release_ref`.
pub data Phase : Type 0 where
  outside : Phase
  waiting inside leaving : String → Phase

pub record System : Type 0 where
  pub threads : List Phase
  pub slots : Slots

-- One step of one thread, among the others.
pub data Step : System → System → Type 0 where
  arrive :
      (before after : List Phase) (slots : Slots) (key : String)
      → Step
          (record { threads = before ++ outside ∷ after; slots = slots })
          (record { threads = before ++ waiting key ∷ after; slots = register key slots })
  obtain :
      (before after : List Phase) (slots : Slots) (key : String) (slot : Slot)
      → lookup key slots ≡ some slot
      → slot.locked ≡ false
      → Step
          (record { threads = before ++ waiting key ∷ after; slots = slots })
          (record { threads = before ++ inside key ∷ after; slots = acquire key slots })
  -- an asynchronous exception in `acquire`, while it waits
  interrupt :
      (before after : List Phase) (slots : Slots) (key : String)
      → Step
          (record { threads = before ++ waiting key ∷ after; slots = slots })
          (record { threads = before ++ outside ∷ after; slots = release_ref key slots })
  unlock :
      (before after : List Phase) (slots : Slots) (key : String)
      → Step
          (record { threads = before ++ inside key ∷ after; slots = slots })
          (record { threads = before ++ leaving key ∷ after; slots = release key slots })
  depart :
      (before after : List Phase) (slots : Slots) (key : String)
      → Step
          (record { threads = before ++ leaving key ∷ after; slots = slots })
          (record { threads = before ++ outside ∷ after; slots = release_ref key slots })

-- What can come of threads that are all outside, and an empty registry.
pub data Reachable : System → Type 0 where
  initial :
      (threads : List Phase)
      → All (λ t. t ≡ outside) threads
      → Reachable (record { threads = threads; slots = [] })
  next : {a b : System} → Reachable a → Step a b → Reachable b

abbrev pub uses : String → Phase → ℕ
uses key outside = 0
uses key (waiting k) = if str_eq k key then 1 else 0
uses key (inside k) = if str_eq k key then 1 else 0
uses key (leaving k) = if str_eq k key then 1 else 0

abbrev pub is_inside : String → Phase → ℕ
is_inside key (inside k) = if str_eq k key then 1 else 0
is_inside key _ = 0

abbrev pub sum_over : (Phase → ℕ) → List Phase → ℕ
sum_over f [] = 0
sum_over f (t ∷ threads) = f t + sum_over f threads
