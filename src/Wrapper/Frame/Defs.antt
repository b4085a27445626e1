-- ===== src/Wrapper/Frame/Defs.antt =====
-- What a relation on states has to allow, and the elementary actions that keep it
-- (src/cachau/decorator.py).
use cachau.Control.{
  Env, State, Tally, hits, miss_not_found, miss_expired, miss_invalidated, miss_dependency_changed,
  miss_verification_failed, writes, bump, record_hit, record_commit,
}
use cachau.Interprocess.Keeps.{FilesKeep}
use cachau.Policy.{LruBudget, fits}
use cachau.Policy
use cachau.Prelude.Exec.Keeps.{Keeps, IsPreorder}
use cachau.Prelude.Exec.{Result, modify}
use cachau.Prelude.{ℕ, String, List, Bool, true, false, Option, some, ◌≡◌}
use cachau.Wrapper.Action.{on_budget, lift, ask, count, touch_budget, forget_budget, state_files}
use cachau.Wrapper.Serve.{clamp_clock}

-- The tallies that count neither a call nor a write.
abbrev pub is_bookkeeping : Tally → Bool
is_bookkeeping hits = false
is_bookkeeping miss_not_found = false
is_bookkeeping miss_expired = false
is_bookkeeping miss_invalidated = false
is_bookkeeping miss_dependency_changed = false
is_bookkeeping miss_verification_failed = false
is_bookkeeping writes = false
is_bookkeeping _ = true

pub record Frame {World : Type 0} (R : State World → State World → Type 0) : Type 0 where
  pub order : IsPreorder R
  pub on_world : (s : State World) (w : World) → R s (record s { world = w })
  pub on_clock :
      (s : State World) (reading : ℕ) (w : World)
      → R s (record s { last_observed = some (clamp_clock s.last_observed reading); world = w })
  pub on_marks :
      (s : State World) (a b c d : List String)
      → R s (record s {
        invalidation_markers = a;
        pending_invalidations = b;
        eviction_markers = c;
        pending_eviction_deletes = d;
      })
  pub on_tally :
      (name : Tally) (amount : ℕ) (s : State World)
      → is_bookkeeping name ≡ true
      → R s (bump name amount s)
  pub on_touch : (key : String) (s : State World) → R s (on_budget (λ b. Policy.touch b key) s)
  pub on_forget : (key : String) (s : State World) → R s (on_budget (λ b. Policy.forget b key) s)
  pub on_admit :
      (s : State World) (b : LruBudget) (key : String) (size : ℕ)
      → s.budget ≡ some b
      → fits b size ≡ true
      → R s (record s { budget = some (Policy.admit b key size).0 })

-- The relation allows a commit to be tallied.
pub record AllowsCommit {World : Type 0} (R : State World → State World → Type 0) : Type 0 where
  pub on_commit : (elapsed : Option ℕ) (s : State World) → R s (record_commit elapsed s)

-- The relation allows hits and misses to be tallied.
pub record AllowsCalls {World : Type 0} (R : State World → State World → Type 0) : Type 0 where
  pub on_hit : (coalesced : Bool) (s : State World) → R s (record_hit coalesced s)
  pub on_any : (name : Tally) (s : State World) → R s (bump name 1 s)

module _ (env : Env) {R : State env.World → State env.World → Type 0} (f : Frame R) where
  pub lift-Keeps :
      {A : Type 0} (op : env.World → Result env.Exn A × env.World) → Keeps R (lift env op)
  unfolding lift
  lift-Keeps op = record { at = λ s. f.on_world s (op s.world).1 }

  pub ask-Keeps : {A : Type 0} (op : env.World → A × env.World) → Keeps R (ask env op)
  unfolding ask
  ask-Keeps op = record { at = λ s. f.on_world s (op s.world).1 }

  pub count-Keeps :
      (name : Tally) (amount : ℕ) → is_bookkeeping name ≡ true → Keeps R (count env name amount)
  unfolding count modify
  count-Keeps name amount h = record { at = λ s. f.on_tally name amount s h }

  pub touch_budget-Keeps : (key : String) → Keeps R (touch_budget env key)
  unfolding touch_budget modify
  touch_budget-Keeps key = record { at = λ s. f.on_touch key s }

  pub forget_budget-Keeps : (key : String) → Keeps R (forget_budget env key)
  unfolding forget_budget modify
  forget_budget-Keeps key = record { at = λ s. f.on_forget key s }

  pub state_files-keep : FilesKeep R (state_files env)
  state_files-keep = record {
    order = f.order;
    on_create = λ p s. f.on_world s _;
    on_write = λ p t s. f.on_world s _;
    on_unlink = λ p s. f.on_world s _;
    on_wall = λ s. f.on_world s _;
    on_monotonic = λ s. f.on_world s _;
    on_sleep = λ d s. f.on_world s _;
    on_token = λ s. f.on_world s _;
  }
