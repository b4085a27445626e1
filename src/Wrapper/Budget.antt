-- ===== src/Wrapper/Budget.antt =====
-- The memory bound of src/cachau/decorator.py: what a call does to `LRUBudget`.
use cachau.Control.{Env, State, bump, record_hit, record_commit}
use cachau.Policy.Bounds.{IsValid, touch-IsValid, forget-IsValid, admit-IsValid}
use cachau.Policy.{LruBudget, touch, forget, admit, fits}
use cachau.Prelude.{ℕ, String, true, Option, none, some, ◌≡◌}
use cachau.Wrapper.Action.{on_budget}
use cachau.Wrapper.Call.{wrapper}
use cachau.Wrapper.Frame.Computing.{wrapper-Keeps}
use cachau.Wrapper.Frame.{Frame, AllowsCommit, AllowsCalls}

-- The function has no budget, or a valid one of `max_bytes` bytes.
pub data Bounded (max_bytes : ℕ) : Option LruBudget → Type 0 where
  unbounded : Bounded max_bytes none
  bounded : {b : LruBudget} → IsValid b → b.max_bytes ≡ max_bytes → Bounded max_bytes (some b)

module _ (max_bytes : ℕ) where
  touched :
      (key : String) {o : Option LruBudget}
      → Bounded max_bytes o
      → Bounded max_bytes (elim o [ none ↦ none | some b ↦ some (touch b key) ])
  unfolding touch
  touched key unbounded = unbounded
  touched key (bounded v e) = bounded (touch-IsValid key v) e

  forgotten :
      (key : String) {o : Option LruBudget}
      → Bounded max_bytes o
      → Bounded max_bytes (elim o [ none ↦ none | some b ↦ some (forget b key) ])
  unfolding forget
  forgotten key unbounded = unbounded
  forgotten key (bounded v e) = bounded (forget-IsValid key v) e

  admitted :
      (key : String) (size : ℕ) {o : Option LruBudget} (b : LruBudget)
      → Bounded max_bytes o
      → o ≡ some b
      → fits b size ≡ true
      → Bounded max_bytes (some (admit b key size).0)
  unfolding admit forget
  admitted key size b unbounded e fit = cc
  admitted key size b (bounded {b = c} v m) e fit =
      let same : c ≡ b = cc in bounded (admit-IsValid key size (rw same at v) fit) (rw same at m)

module _ {World : Type 0} (max_bytes : ℕ) where
  abbrev StaysBounded : State World → State World → Type 0
  StaysBounded s t = Bounded max_bytes s.budget → Bounded max_bytes t.budget

  budget_frame : Frame StaysBounded
  unfolding on_budget bump
  budget_frame = record {
    order = record { here = λ s h. h; after = λ p q h. q (p h) };
    on_world = λ s w h. h;
    on_clock = λ s r w h. h;
    on_marks = λ s a b c d h. h;
    on_tally = λ n m s q h. h;
    on_touch = λ key s h. touched max_bytes key h;
    on_forget = λ key s h. forgotten max_bytes key h;
    on_admit = λ s b key size e fit h. admitted max_bytes key size b h e fit;
  }

  budget_commit : AllowsCommit StaysBounded
  unfolding record_commit
  budget_commit = record { on_commit = λ o s h. h }

  budget_calls : AllowsCalls StaysBounded
  unfolding record_hit bump
  budget_calls = record { on_hit = λ c s h. h; on_any = λ n s h. h }

-- Whatever the store, the function, the clock and other processes do, a call that starts with a
-- valid budget of `max_bytes` bytes, or with none, ends so, whether it returns or raises.
pub wrapper-Bounded :
    (env : Env) (max_bytes : ℕ) (args : env.Args) (s : State env.World)
    → Bounded max_bytes s.budget
    → Bounded max_bytes (wrapper env args s).1.budget
wrapper-Bounded env max_bytes args s h =
    (wrapper-Keeps env (budget_frame max_bytes) (budget_commit max_bytes) (budget_calls max_bytes)
        (λ t x k. k) args).at
      s h
