-- ===== src/Flight/Safety.antt =====
-- src/cachau/flight.py: what holds of `KeyedLocks` in every interleaving of its callers.
use cachau.Flight.Exclusion.{Sound, arrive-Sound, obtain-Sound, unlock-Sound, release_ref-Sound}
use cachau.Flight.Threads.{
  Phase, outside, waiting, leaving, System, Step, arrive, obtain, interrupt, unlock, depart,
  Reachable, initial, next, uses, is_inside, sum_over,
}
use cachau.Flight.{Slots}
use cachau.Prelude.Dict.{lookup}
use cachau.Prelude.{
  All, Option-cases, sym, ℕ, String, List, [], ◌∷◌, none, ◌≡◌, refl, arith, eq_refl, inl, inr,
}

nobody :
    (f : Phase → ℕ) (threads : List Phase)
    → f outside ≡ 0
    → All (λ t. t ≡ outside) threads
    → sum_over f threads ≡ 0
nobody f [] z q = refl
nobody f (t ∷ threads) z (e, q) = rw e (omega (arith, z, nobody f threads z q))

Step-Sound : {a b : System} → Step a b → Sound a.threads a.slots → Sound b.threads b.slots
Step-Sound (arrive a b slots key) h = arrive-Sound a b slots key h
Step-Sound (obtain a b slots key slot e free) h = obtain-Sound a b slots key slot e free h
Step-Sound (interrupt a b slots key) h =
    release_ref-Sound a b (waiting key) slots key (λ j. refl) (λ j. refl) h
Step-Sound (unlock a b slots key) h = unlock-Sound a b slots key h
Step-Sound (depart a b slots key) h =
    release_ref-Sound a b (leaving key) slots key (λ j. refl) (λ j. refl) h

Reachable-Sound : {a : System} → Reachable a → Sound a.threads a.slots
unfolding lookup
Reachable-Sound (initial threads q) = record {
  counts = λ key. sym (nobody (uses key) threads refl q);
  locks = λ key. sym (nobody (is_inside key) threads refl q);
  present = λ key slot e. cc;
}
Reachable-Sound (next r step) = Step-Sound step (Reachable-Sound r)

absent-empty : (slots : Slots) → ((key : String) → lookup key slots ≡ none) → slots ≡ []
unfolding lookup
absent-empty [] h = refl
absent-empty ((k, slot) ∷ slots) h = ground (arith, h k, eq_refl k)

-- When all threads are outside again, the registry is empty, where no thread was interrupted but while
-- it waited in `acquire`.
pub Reachable-clean : {a : System} → Reachable a → All (λ t. t ≡ outside) a.threads → a.slots ≡ []
Reachable-clean {a} r q = absent-empty a.slots λ key. elim (Option-cases (lookup key a.slots)) [
  | inl e ↦ e
  | inr (slot, e) ↦ ground (
    arith,
    e,
    (Reachable-Sound r).counts key,
    (Reachable-Sound r).present key slot e,
    nobody (uses key) a.threads refl q,
  )
]
