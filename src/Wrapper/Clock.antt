-- ===== src/Wrapper/Clock.antt =====
-- The clamped clock `now` of src/cachau/decorator.py.
use cachau.Control.{Env, State, bump, record_hit, record_commit}
use cachau.Prelude.{ℕ, ◌≤◌, Option, none, some, arith}
use cachau.Wrapper.Action.{on_budget}
use cachau.Wrapper.Call.{wrapper}
use cachau.Wrapper.Frame.Computing.{wrapper-Keeps}
use cachau.Wrapper.Frame.{Frame, AllowsCommit, AllowsCalls}
use cachau.Wrapper.Serve.{clamp_clock}

-- Not earlier; `none` is minus infinity.
abbrev pub NotEarlier : Option ℕ → Option ℕ → Type 0
NotEarlier none t = Unit
NotEarlier (some a) none = ⊥
NotEarlier (some a) (some b) = a ≤ b

NotEarlier-refl : (o : Option ℕ) → NotEarlier o o
NotEarlier-refl none = tt
NotEarlier-refl (some a) = omega arith

NotEarlier-trans : (a b c : Option ℕ) → NotEarlier a b → NotEarlier b c → NotEarlier a c
NotEarlier-trans none b c h k = tt
NotEarlier-trans (some a) none c h k = absurd h
NotEarlier-trans (some a) (some b) none h k = absurd k
NotEarlier-trans (some a) (some b) (some c) h k = omega arith

NotEarlier-clamp_clock : (o : Option ℕ) (reading : ℕ) → NotEarlier o (some (clamp_clock o reading))
NotEarlier-clamp_clock none reading = tt
NotEarlier-clamp_clock (some a) reading = ground arith

module _ {World : Type 0} where
  abbrev Forward : State World → State World → Type 0
  Forward s t = NotEarlier s.last_observed t.last_observed

  clock_frame : Frame Forward
  unfolding on_budget bump
  clock_frame = record {
    order = record {
      here = λ s. NotEarlier-refl s.last_observed;
      after =
          λ {s} {t} {u} p q. NotEarlier-trans s.last_observed t.last_observed u.last_observed p q;
    };
    on_world = λ s w. NotEarlier-refl s.last_observed;
    on_clock = λ s r w. NotEarlier-clamp_clock s.last_observed r;
    on_marks = λ s a b c d. NotEarlier-refl s.last_observed;
    on_tally = λ n m s q. NotEarlier-refl s.last_observed;
    on_touch = λ key s. NotEarlier-refl s.last_observed;
    on_forget = λ key s. NotEarlier-refl s.last_observed;
    on_admit = λ s b key size e fit. NotEarlier-refl s.last_observed;
  }

  clock_commit : AllowsCommit Forward
  unfolding record_commit
  clock_commit = record { on_commit = λ o s. NotEarlier-refl s.last_observed }

  clock_calls : AllowsCalls Forward
  unfolding record_hit bump
  clock_calls = record {
    on_hit = λ c s. NotEarlier-refl s.last_observed;
    on_any = λ n s. NotEarlier-refl s.last_observed;
  }

-- However the wall clock jumps, a call never moves the last observed instant backward.
pub wrapper-NotEarlier :
    (env : Env) (args : env.Args) (s : State env.World)
    → NotEarlier s.last_observed (wrapper env args s).1.last_observed
wrapper-NotEarlier env args s =
    (wrapper-Keeps env clock_frame clock_commit clock_calls (λ t x. NotEarlier-refl t.last_observed)
        args).at
      s
