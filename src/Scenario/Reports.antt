-- ===== src/Scenario/Reports.antt =====
-- The methods for users, on the scenario's function: tests, and the theorems about them.
use cachau.Backend.{CacheEntry}
use cachau.Control.{Env, State, invalidations}
use cachau.Dependencies.Changes
use cachau.Dependencies.Changes.{changed_labels}
use cachau.Explanation.{Explanation, hit, miss, not_found}
use cachau.Memory
use cachau.Memory.Laws.{memory_backend-StoreLaws}
use cachau.Backend.Laws.{StoreLaws}
use cachau.Observation.Conservation.{wrapper-stats}
use cachau.Observation.Explain
use cachau.Observation.Explain.{explain, explain_key, bare}
use cachau.Observation.Forget
use cachau.Observation.Forget.{invalidate_key}
use cachau.Observation.Honest.{is_hit, is_served, Still, explain_key-serve_if_fresh}
use cachau.Observation.Inspect
use cachau.Observation.Inspect.{Inspection, inspect, total_bytes}
use cachau.Observation.Measured.{IsMeasured, profile-IsMeasured}
use cachau.Observation.Profiling.{Bound, profile}
use cachau.Observation.Purity.{Observed, observation-Observed}
use cachau.Observation.Quarantine.{invalidate_key-unserved}
use cachau.Observation.Totals
use cachau.Observation.Totals.{stats, snapshot}
use cachau.Prelude.Dict.{Dict}
use cachau.Prelude.Exec.Yields.{Holds}
use cachau.Prelude.Exec.{ok}
use cachau.Prelude.{[], ℕ, ◌+◌, String, ◌∷◌, true, false, Option, none, some, ◌≡◌, refl}
use cachau.Scenario.Calls.{program, served}
use cachau.Scenario.{Room, counter, start}
use cachau.Wrapper.{wrapper, serve_if_fresh, current_dependencies}

-- The scenario at one instant.
abbrev pub stopped : Env
stopped = record counter { clock = λ w. (1010, w) }

still : Still stopped 1010
still = record { clock_at = λ w. refl }

pub store_laws : StoreLaws stopped.store
store_laws =
    memory_backend-StoreLaws Unit (λ w. w.entries) (λ entries w. record w { entries = entries })
      (λ d w. refl)

abbrev pub the_key : String
the_key = "app.load:f0:x"

abbrev pub prod : Option (Dict String)
prod = some (("env:MODE", "v:prod") ∷ [])

-- Everything that the methods compute with.
reports : Unit {0}
unfolding program Explain.explain Explain.explain_key Explain.observe Explain.peek_now
    Inspect.inspect Inspect.views_of Totals.stats Totals.usage Totals.snapshot Memory.iter_metadata
    Memory.peek Forget.invalidate_key Changes.changed_labels Inspect.total_bytes
reports = tt

memory_backend-StoreLaws_example : StoreLaws counter.store
memory_backend-StoreLaws_example =
    memory_backend-StoreLaws Unit (λ w. w.entries) (λ entries w. record w { entries = entries })
      (λ d w. refl)

abbrev an_entry : CacheEntry ℕ
an_entry = record {
  value = 1;
  namespace = "app.load";
  created_at = 1000;
  expires_at = none;
  size = none;
  dependency_fingerprints = none;
}

invalidate_key-unserved_example :
    ((invalidate_key stopped the_key served).0 ≡ ok tt)
    × ((serve_if_fresh stopped the_key prod false (invalidate_key stopped the_key served).1).0
        ≡ ok none)
    × ((invalidate_key stopped the_key served).1.tallies invalidations
        ≡ served.tallies invalidations + 1)
invalidate_key-unserved_example =
    invalidate_key-unserved stopped store_laws the_key prod false served

prod_now : (current_dependencies stopped served).0 ≡ ok prod
unfolding program
prod_now = refl

explain_key-serve_if_fresh_example :
    is_hit stopped (explain_key stopped the_key served).0
    ≡ is_served stopped (serve_if_fresh stopped the_key prod false served).0
explain_key-serve_if_fresh_example =
    explain_key-serve_if_fresh stopped store_laws still the_key prod served prod_now

-- The entry of the first call is announced as a hit.
explained_hit : is_hit stopped (explain_key stopped the_key served).0 ≡ true
unfolding reports
explained_hit = refl

abbrev cold : Explanation
cold = bare stopped miss not_found the_key 1010

cold_explained : (explain_key stopped the_key start).0 ≡ ok cold
unfolding reports
cold_explained = refl

abbrev once_called : State Room
once_called = (wrapper counter "x" served).1

wrapper-stats_example :
    (snapshot once_called.tallies 1 40).hits + (snapshot once_called.tallies 1 40).misses
    ≡ (snapshot served.tallies 1 40).hits + (snapshot served.tallies 1 40).misses + 1
unfolding reports
wrapper-stats_example =
    wrapper-stats counter "x" served 1 (snapshot served.tallies 1 40)
      (snapshot once_called.tallies 1 40) refl refl refl

abbrev the_listing : Inspection
the_listing = record {
  namespace = "app.load";
  entries =
      record {
        key = the_key;
        namespace = "app.load";
        checked_at = 1010;
        created_at = some 1007;
        expires_at = some 1067;
        size_bytes = some 40;
        dependency_fingerprints = prod;
      }
      ∷ [];
}

listed_now : (inspect stopped served).0 ≡ ok the_listing
unfolding reports
listed_now = refl

observation-Observed_example :
    Observed served (explain stopped "x" served).1
    × Observed served (inspect stopped served).1
    × Observed served (stats stopped served).1
observation-Observed_example = observation-Observed stopped "x" served

-- The explanation of that call.
explained : (x : Explanation) × ((explain stopped "x" served).0 ≡ ok x) × (x.outcome ≡ hit)
unfolding reports
explained = (_, refl, refl)

-- No array among the arguments, and a helper that was not declared.
abbrev small_call : Bound stopped
small_call = record {
  largest = λ a w. (ok none, w);
  helpers = ("helper", "app.helper") ∷ [];
  declared_code = [];
}

profile-IsMeasured_example :
    Observed served (profile stopped small_call "x" 2 served).1
    × Holds (IsMeasured 2) (profile stopped small_call "x" 2 served).0
profile-IsMeasured_example = profile-IsMeasured stopped small_call "x" 2 served
