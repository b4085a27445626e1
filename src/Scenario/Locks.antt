-- ===== src/Scenario/Locks.antt =====
-- Threads that call with the same arguments, step by step, one of them interrupted, and the theorems about their locks.
use cachau.Flight
use cachau.Flight.Interrupts.{Attainable, at_rest, and_then, undisturbed, abandoned, waits}
use cachau.Flight.Interrupts.Exclusive.{Attainable-exclusive}
use cachau.Flight.Safety.{Reachable-clean}
use cachau.Flight.Threads.{
  outside, waiting, inside, System, Reachable, initial, next, arrive, obtain, unlock, depart,
  is_inside, sum_over,
}
use cachau.Flight.{Slots, register, acquire, release, release_ref}
use cachau.Prelude.Dict
use cachau.Prelude.Dict.{lookup}
use cachau.Prelude.{◌≤◌, [], ◌∷◌, false, ◌≡◌, refl}

abbrev one_in : Slots
one_in = register "k" []

abbrev two_in : Slots
two_in = register "k" one_in

-- The first is interrupted after it is counted and before the `try`: the key stays behind, and the other
-- thread gets the lock all the same.
abbrev undisturbed_one : System
undisturbed_one = record { threads = outside ∷ inside "k" ∷ []; slots = acquire "k" two_in }

left_behind : Attainable (record { threads = outside ∷ outside ∷ []; slots = one_in })
left_behind =
    and_then
      (and_then (at_rest (outside ∷ outside ∷ []) (refl, (refl, tt)))
        (undisturbed (arrive [] (outside ∷ []) [] "k")))
      (abandoned [] (outside ∷ []) one_in "k" (waiting "k") waits)

undisturbed_one-Attainable : Attainable undisturbed_one
unfolding Flight.register Dict.insert Dict.lookup
undisturbed_one-Attainable =
    and_then (and_then left_behind (undisturbed (arrive (outside ∷ []) [] one_in "k"))) (
      undisturbed
        (obtain (outside ∷ []) [] two_in "k" (record { locked = false; waiters = 2 }) refl refl))

Attainable-exclusive_example : sum_over (is_inside "k") undisturbed_one.threads ≤ 1
Attainable-exclusive_example = Attainable-exclusive undisturbed_one-Attainable "k"

-- One has come and gone.
abbrev finished : System
finished = record {
  threads = outside ∷ [];
  slots = release_ref "k" (release "k" (acquire "k" one_in));
}

finished-Reachable : Reachable finished
unfolding Flight.register Dict.insert Dict.lookup
finished-Reachable =
    next
      (next
        (next (next (initial (outside ∷ []) (refl, tt)) (arrive [] [] [] "k"))
          (obtain [] [] one_in "k" (record { locked = false; waiters = 1 }) refl refl))
        (unlock [] [] (acquire "k" one_in) "k"))
      (depart [] [] (release "k" (acquire "k" one_in)) "k")

Reachable-clean_example : finished.slots ≡ []
Reachable-clean_example = Reachable-clean finished-Reachable (refl, tt)
