-- ===== src/Observation/Purity.antt =====
-- src/cachau/decorator.py: what `explain`, `inspect` and `stats` write.
use cachau.Backend.{CacheEntry, is_expired}
use cachau.Control.{Env, State}
use cachau.Observation.Explain.{observe, peek_now, explain_entry, explain_key, explain}
use cachau.Observation.Inspect.{inspect}
use cachau.Observation.Totals.{stats}
use cachau.Prelude.Exec.Keeps.{Keeps, IsPreorder, Keeps-pure, Keeps-gets, Keeps-bind, Keeps-if}
use cachau.Prelude.Exec.{Result}
use cachau.Prelude.{ℕ, String, Option, none, some, ◌≡◌, refl, ap, ◌∙◌}
use cachau.Wrapper.Frame.Serving.{fingerprint_dependencies-Keeps}
use cachau.Wrapper.{lift, build_key, current_dependencies, is_declared}

module _ {World : Type 0} where
  -- Nothing but the outside world may differ.
  abbrev pub Observed : State World → State World → Type 0
  Observed s t = t ≡ record s { world = t.world }

  pub Observed-order : IsPreorder Observed
  Observed-order = record {
    here = λ s. refl;
    after = λ {s} {t} {u} p q. q ∙ ap (λ (x : State World). record x { world = u.world }) p;
  }

module _ (env : Env) where
  pub lift-Keeps :
      {A : Type 0} (op : env.World → Result env.Exn A × env.World) → Keeps Observed (lift env op)
  unfolding lift
  lift-Keeps op = record { at = λ s. refl }

  pub observe-Keeps :
      {A : Type 0} (op : env.World → Result env.Exn A) → Keeps Observed (observe env op)
  unfolding observe
  observe-Keeps op = record { at = λ s. refl }

  pub peek_now-Keeps : Keeps Observed (peek_now env)
  unfolding peek_now
  peek_now-Keeps = record { at = λ s. refl }

  pub build_key-Keeps : (args : env.Args) → Keeps Observed (build_key env args)
  unfolding build_key
  build_key-Keeps args =
      Keeps-bind Observed-order (lift-Keeps (env.digest args)) λ d. Keeps-pure Observed-order _

  pub current-Keeps : Keeps Observed (current_dependencies env)
  unfolding current_dependencies
  current-Keeps =
      fingerprint_dependencies-Keeps Observed-order (λ label. lift-Keeps (env.fingerprint_of label))
        env.dependencies

  entry-Keeps :
      (key : String) (t : ℕ) (found : Option (CacheEntry env.Value))
      → Keeps Observed (explain_entry env key t found)
  entry-Keeps key t none = Keeps-bind Observed-order (Keeps-gets Observed-order _) λ a.
      Keeps-bind Observed-order (Keeps-gets Observed-order _) λ b.
        Keeps-bind Observed-order (Keeps-gets Observed-order _) λ c. Keeps-pure Observed-order _
  entry-Keeps key t (some entry) = Keeps-if (is_expired entry t) (Keeps-pure Observed-order _) (
      Keeps-if (is_declared env.dependencies)
        (Keeps-bind Observed-order current-Keeps λ d. Keeps-pure Observed-order _)
        (Keeps-pure Observed-order _))

  pub explain-Keeps : (args : env.Args) → Keeps Observed (explain env args)
  unfolding explain explain_key
  explain-Keeps args = Keeps-bind Observed-order (build_key-Keeps args) λ key.
      Keeps-bind Observed-order peek_now-Keeps λ t.
        Keeps-bind Observed-order (Keeps-gets Observed-order _) λ q.
          Keeps-if q (Keeps-pure Observed-order _)
            (Keeps-bind Observed-order (observe-Keeps (env.store.peek key)) (entry-Keeps key t))

  inspect-Keeps : Keeps Observed (inspect env)
  unfolding inspect
  inspect-Keeps = Keeps-bind Observed-order peek_now-Keeps λ t.
      Keeps-bind Observed-order (Keeps-gets Observed-order _) λ p.
        Keeps-bind Observed-order (observe-Keeps env.store.iter_metadata)
          λ rows. Keeps-pure Observed-order _

  stats-Keeps : Keeps Observed (stats env)
  unfolding stats
  stats-Keeps = Keeps-bind Observed-order (observe-Keeps env.store.iter_metadata) λ rows.
      Keeps-bind Observed-order (Keeps-gets Observed-order _) λ t. Keeps-pure Observed-order _

  -- `explain`, `inspect` and `stats`, whether they return or raise, leave every counter, marker,
  -- lock and budget as it was, and the clamped clock too: nothing but the outside world may differ.
  pub observation-Observed :
      (args : env.Args) (s : State env.World)
      → Observed s (explain env args s).1
        × Observed s (inspect env s).1
        × Observed s (stats env s).1
  observation-Observed args s = ((explain-Keeps args).at s, inspect-Keeps.at s, stats-Keeps.at s)
