-- ===== src/Wrapper/Registry.antt =====
-- The per-key locks of src/cachau/decorator.py and src/cachau/flight.py, as one caller sees them.
use cachau.Control.{Env, State, bump, record_hit, record_commit}
use cachau.Flight.{enter, leave}
use cachau.Prelude.Dict.{Dict, lookup, insert, remove}
use cachau.Prelude.Exec.Keeps.{Keeps, IsPreorder, Keeps-pure, Keeps-bind, Keeps-if}
use cachau.Prelude.Exec.{◌>>=◌}
use cachau.Prelude.{String, [], false, Option, none, some, ◌≡◌, refl, ◌∙◌, eq_refl}
use cachau.Wrapper.Action.{M, on_budget}
use cachau.Wrapper.Call.{holding, or_compute, wrapper}
use cachau.Wrapper.Frame.Computing.{locked-Keeps, is_selected-Keeps}
use cachau.Wrapper.Frame.Serving.{build_key-Keeps, current_dependencies-Keeps, serve_if_fresh-Keeps}
use cachau.Wrapper.Frame.{Frame, AllowsCommit, AllowsCalls}

-- A lone caller that enters an empty registry and leaves it, leaves it empty.
leave-enter : (key : String) → leave key (enter key []) ≡ []
unfolding leave enter lookup insert remove
leave-enter key = simp eq_refl

module _ {World : Type 0} where
  abbrev SameSlots : State World → State World → Type 0
  SameSlots s t = t.slots ≡ s.slots

  slots_frame : Frame SameSlots
  unfolding on_budget bump
  slots_frame = record {
    order = record { here = λ s. refl; after = λ p q. q ∙ p };
    on_world = λ s w. refl;
    on_clock = λ s r w. refl;
    on_marks = λ s a b c d. refl;
    on_tally = λ n m s q. refl;
    on_touch = λ key s. refl;
    on_forget = λ key s. refl;
    on_admit = λ s b key size e fit. refl;
  }

  slots_commit : AllowsCommit SameSlots
  unfolding record_commit
  slots_commit = record { on_commit = λ o s. refl }

  slots_calls : AllowsCalls SameSlots
  unfolding record_hit bump
  slots_calls = record { on_hit = λ c s. refl; on_any = λ n s. refl }

  -- An empty registry stays empty.
  abbrev StaysEmpty : State World → State World → Type 0
  StaysEmpty s t = s.slots ≡ [] → t.slots ≡ []

  empty_order : IsPreorder StaysEmpty
  empty_order = record { here = λ s e. e; after = λ p q e. q (p e) }

module _ (env : Env) where
  same_then_empty : {A : Type 0} {m : M env A} → Keeps SameSlots m → Keeps StaysEmpty m
  same_then_empty km = record { at = λ s e. km.at s ∙ e }

  holding-empty :
      {A : Type 0} (key : String) {m : M env A}
      → Keeps SameSlots m
      → Keeps StaysEmpty (holding env key m)
  unfolding holding ◌>>=◌
  holding-empty key {m} km = record { at = λ s e. rw (km.at _, e) (leave-enter key) }

  or_compute-empty :
      (key : String) (args : env.Args) (d : Option (Dict String)) (found : Option env.Value)
      → Keeps StaysEmpty (or_compute env key args d found)
  or_compute-empty key args d (some value) = Keeps-pure empty_order value
  or_compute-empty key args d none =
      holding-empty key (locked-Keeps env slots_frame slots_commit slots_calls key args d).1

  wrapper-empty : (args : env.Args) → Keeps StaysEmpty (wrapper env args)
  unfolding wrapper
  wrapper-empty args =
      Keeps-bind empty_order (same_then_empty (build_key-Keeps env slots_frame args)) λ key.
        Keeps-bind empty_order (same_then_empty (current_dependencies-Keeps env slots_frame)) λ d.
          Keeps-bind empty_order (same_then_empty (is_selected-Keeps env slots_frame)) λ selected.
            Keeps-if selected
              (holding-empty key
                (locked-Keeps env slots_frame slots_commit slots_calls key args d).0)
              (Keeps-bind empty_order
                (same_then_empty (serve_if_fresh-Keeps env slots_frame slots_calls key d false))
                (or_compute-empty key args d))

-- A call that finds no slot in the registry of locks leaves none, whether it returns or raises.
pub slots-wrapper :
    (env : Env) (args : env.Args) (s : State env.World)
    → s.slots ≡ []
    → (wrapper env args s).1.slots ≡ []
slots-wrapper env args s e = (wrapper-empty env args).at s e
