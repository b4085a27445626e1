-- ===== src/Scenario/Calls.antt =====
-- Calls of the scenario's function, and the theorems about the wrapper at them.
use cachau.Backend
use cachau.Control
use cachau.Control.{State, hits, miss_not_found}
use cachau.Dependencies
use cachau.Flight
use cachau.Memory
use cachau.Policy
use cachau.Prelude.Dict
use cachau.Prelude.Exec
use cachau.Prelude.Exec.{ok}
use cachau.Prelude.{ℕ, [], ◌∷◌, some, false, ◌↔◌, ◌≡◌, refl, contains, discard}
use cachau.Scenario.{Room, counter, start}
use cachau.Wrapper
use cachau.Wrapper.Accounting.Flights.{wrapper-calls}
use cachau.Wrapper.Accounting.{calls}
use cachau.Wrapper.Budget.{Bounded, bounded, wrapper-Bounded}
use cachau.Wrapper.Freshness.{Servable, serve_if_fresh-Servable}
use cachau.Wrapper.{wrapper, serve_if_fresh}
use cachau.Backend.{CacheEntry}
use cachau.Policy.Bounds.{new_budget-IsValid}
use cachau.Prelude.Exec.Counts.{Counted, once}

-- All that a run of the wrapper computes with.
unfoldable pub program : Unit {0}
unfolding Wrapper.wrapper Wrapper.build_key Wrapper.current_dependencies Wrapper.is_selected
    Wrapper.serve_if_fresh Wrapper.fresh_entry Wrapper.now Wrapper.holding Wrapper.compute_flight
    Wrapper.classify_and_compute Wrapper.classify Wrapper.run_and_time Wrapper.commit_result
    Wrapper.commit_stable Wrapper.write Wrapper.after_write Wrapper.evict_all
    Wrapper.drain_pending_evictions Wrapper.retry_all Wrapper.others Wrapper.safe_delete
    Wrapper.lift Wrapper.ask Wrapper.count Wrapper.touch_budget Wrapper.forget_budget
    Wrapper.on_budget Dependencies.fingerprint_dependencies Dependencies.fingerprint_all
    Dependencies.same_fingerprints Dependencies.included Control.bump Control.record_hit
    Control.record_commit Control.record_compute Control.note_recached Control.note_mark
    Control.note_eviction Policy.new_budget Policy.touch Policy.forget Policy.admit Policy.fits
    Policy.evict_oldest Memory.get Memory.set Memory.delete Flight.enter Flight.leave
    Backend.is_expired Dict.lookup Dict.insert Dict.remove Exec.◌>>=◌ contains discard
program = tt

first_call : (wrapper counter "x" start).0 ≡ ok 1
unfolding program
first_call = refl

-- The second call of the same arguments is a hit, and a call after the dependency changed is not.
second_call : (wrapper counter "x" (wrapper counter "x" start).1).0 ≡ ok 1
unfolding program
second_call = refl

abbrev pub served : State Room
served = (wrapper counter "x" start).1

wrapper-calls_example :
    Counted calls once served (wrapper counter "x" served).0 (wrapper counter "x" served).1
wrapper-calls_example = wrapper-calls counter "x" served

wrapper-Bounded_example : Bounded 100 (wrapper counter "x" start).1.budget
unfolding Policy.new_budget
wrapper-Bounded_example =
    wrapper-Bounded counter 100 "x" start (bounded (new_budget-IsValid 100) refl)

-- Served from the entry that the first call wrote.
serve_if_fresh-Servable_example :
    ((serve_if_fresh counter "app.load:f0:x" (some (("env:MODE", "v:prod") ∷ [])) false served).0
      ≡ ok (some 1))
    ↔ ((e : CacheEntry ℕ) × Servable counter "app.load:f0:x"
          (some (("env:MODE", "v:prod") ∷ []))
          served
          e
        × (e.value ≡ 1))
serve_if_fresh-Servable_example =
    serve_if_fresh-Servable counter "app.load:f0:x" (some (("env:MODE", "v:prod") ∷ [])) false
      served 1
