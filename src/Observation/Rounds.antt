-- ===== src/Observation/Rounds.antt =====
-- src/cachau/profile.py: relations that the rounds of `measure` keep.
use cachau.Control.{Env, State}
use cachau.Observation.Profiling.{Bound, timed, more_rounds, measure}
use cachau.Prelude.Exec.Keeps.{Keeps, IsPreorder, Keeps-pure, Keeps-bind}
use cachau.Prelude.{ℕ, zero, suc, min_of}
use cachau.Wrapper.{M, ask}

module _ (env : Env) (bound : Bound env) {R : State env.World → State env.World → Type 0}
    (order : IsPreorder R) (ticks : Keeps R (ask env env.perf_counter)) where
  timed-Keeps : {A : Type 0} {m : M env A} → Keeps R m → Keeps R (timed env bound m)
  unfolding timed
  timed-Keeps km =
      Keeps-bind order ticks
        λ a. Keeps-bind order km λ b. Keeps-bind order ticks λ c. Keeps-pure order _

  rounds-Keeps :
      {A : Type 0} {m : M env A}
      → Keeps R m
      → (n best : ℕ) → Keeps R (more_rounds env bound m n best)
  unfolding more_rounds
  rounds-Keeps km zero best = Keeps-pure order best
  rounds-Keeps km (suc n) best =
      Keeps-bind order (timed-Keeps km) λ t. rounds-Keeps km n (min_of best t)

  pub measure-Keeps :
      {A : Type 0} {m : M env A} → Keeps R m → (n : ℕ) → Keeps R (measure env bound m n)
  unfolding measure
  measure-Keeps km n = Keeps-bind order (timed-Keeps km) λ t. rounds-Keeps km n t
