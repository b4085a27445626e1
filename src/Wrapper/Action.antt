-- ===== src/Wrapper/Action.antt =====
-- Actions on the state of a decorated function (src/cachau/decorator.py).
use cachau.Control.{Env, State, Tally, bump}
use cachau.Interprocess.{LockFiles}
use cachau.Policy.{LruBudget}
use cachau.Policy
use cachau.Prelude.Exec.{Result, ok, raise, Exec, modify}
use cachau.Prelude.{ℕ, String, none, some}

-- What stops a call: an exception of the outside world, or the end of `coordinate`'s fuel.
pub data Fault (Exn : Type 0) : Type 0 where
  exn : Exn → Fault Exn
  out_of_fuel : Fault Exn

abbrev pub faulted : {Exn A : Type 0} → Result Exn A → Result (Fault Exn) A
faulted (ok a) = ok a
faulted (raise e) = raise (exn e)

unfoldable pub on_budget : {World : Type 0} → (LruBudget → LruBudget) → State World → State World
on_budget f s = record s { budget = elim s.budget [ none ↦ none | some b ↦ some (f b) ] }

module _ (env : Env) where
  abbrev pub M : Type 0 → Type 0
  M A = Exec (Fault env.Exn) (State env.World) A

  -- An operation of the outside world.
  unfoldable pub lift : {A : Type 0} → (env.World → Result env.Exn A × env.World) → M A
  lift op s = let (r, w) = op s.world in (faulted r, record s { world = w })

  -- One that does not raise.
  unfoldable pub ask : {A : Type 0} → (env.World → A × env.World) → M A
  ask op s = let (a, w) = op s.world in (ok a, record s { world = w })

  unfoldable pub count : Tally → ℕ → M (Unit {0})
  count name amount = modify (bump name amount)

  -- `if budget is not None: budget.touch(key)`, and so for `forget`
  unfoldable pub touch_budget : String → M (Unit {0})
  touch_budget key = modify (on_budget (λ b. Policy.touch b key))

  unfoldable pub forget_budget : String → M (Unit {0})
  forget_budget key = modify (on_budget (λ b. Policy.forget b key))

  -- The lock files, over the whole state.
  abbrev pub state_files : LockFiles (State env.World)
  state_files =
      let f = env.files in
      record {
        create_lock = λ p s. let (r, w) = f.create_lock p s.world in (r, record s { world = w });
        write_token =
            λ p t s. let (r, w) = f.write_token p t s.world in (r, record s { world = w });
        unlink = λ p s. let (r, w) = f.unlink p s.world in (r, record s { world = w });
        read_token = λ p s. f.read_token p s.world;
        modified_at = λ p s. f.modified_at p s.world;
        wall_clock = λ s. let (r, w) = f.wall_clock s.world in (r, record s { world = w });
        monotonic = λ s. let (r, w) = f.monotonic s.world in (r, record s { world = w });
        sleep = λ d s. record s { world = f.sleep d s.world };
        new_token = λ s. let (r, w) = f.new_token s.world in (r, record s { world = w });
      }
