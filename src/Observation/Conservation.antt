-- ===== src/Observation/Conservation.antt =====
-- src/cachau/decorator.py: the figures of `stats` before and after a call.
use cachau.Control.{Env, State}
use cachau.Observation.Explain.{observe}
use cachau.Observation.Totals.{stats, snapshot}
use cachau.Prelude.Exec.Counts.{Counted, once}
use cachau.Prelude.Exec.{Result, ok, raise, ◌>>=◌}
use cachau.Prelude.{◌+◌, ◌≡◌, ◌∙◌, ap, sym, arith}
use cachau.Stats.{CacheStats}
use cachau.Wrapper.Accounting.Flights.{wrapper-calls}
use cachau.Wrapper.Accounting.{calls}
use cachau.Wrapper.{Fault, wrapper}

module _ (env : Env) where
  stats-calls :
      (s : State env.World) (x : CacheStats) → (stats env s).0 ≡ ok x → x.hits + x.misses ≡ calls s
  unfolding stats observe snapshot ◌>>=◌
  stats-calls s x h = ground arith

  returned_once :
      (r : Result (Fault env.Exn) env.Value) (s t : State env.World) (v : env.Value)
      → r ≡ ok v
      → Counted calls once s r t
      → calls t ≡ calls s + 1
  returned_once (ok a) s t v e h = h
  returned_once (raise x) s t v e h = cc

  -- Of two snapshots, one before and one after a call that returns, the second has one hit or one
  -- miss more than the first, of whatever kind, whatever the environment does.
  pub wrapper-stats :
      (args : env.Args) (s : State env.World) (v : env.Value) (x y : CacheStats)
      → (wrapper env args s).0 ≡ ok v
      → (stats env s).0 ≡ ok x
      → (stats env (wrapper env args s).1).0 ≡ ok y
      → y.hits + y.misses ≡ x.hits + x.misses + 1
  wrapper-stats args s v x y h before after =
      let t = (wrapper env args s).1 in
      stats-calls t y after
      ∙ returned_once (wrapper env args s).0 s t v h (wrapper-calls env args s)
      ∙ ap (λ n. n + 1) (sym (stats-calls s x before))
