-- ===== src/Scenario.antt =====
-- A decorated function to run the model on: a counter of its own runs, over a `MemoryBackend`, with
-- one declared dependency, a budget, and a clock that ticks at every reading.
pub mod Calls
pub mod Reports
pub mod Locks
pub mod Commits
pub mod Waiting
pub mod Declarations
pub mod Characters
pub mod Machine
pub mod Notation
pub mod Folder
pub mod Restart
pub mod Options
pub mod Tokens
pub mod Frames
pub mod Arrays
pub mod Callers
pub mod Closures
pub mod Sizes
pub mod Fingerprints
pub mod Resources
pub mod Profiles
use cachau.Backend.{CacheEntry}
use cachau.Control.{Config, Env, State}
use cachau.Interprocess.{LockFiles, created}
use cachau.Memory.{memory_backend}
use cachau.Policy.{new_budget}
use cachau.Prelude.Dict.{Dict}
use cachau.Prelude.Exec.{ok}
use cachau.Prelude.Int.{pos}
use cachau.Prelude.{ℕ, ◌+◌, String, [], ◌∷◌, true, false, none, some}

-- The world: the dictionary of the backend, the time, the runs so far, the value of the dependency.
pub record Room : Type 0 where
  pub entries : Dict (CacheEntry ℕ)
  pub time : ℕ
  pub runs : ℕ
  pub mode : String

abbrev pub tick : Room → ℕ × Room
tick w = (w.time, record w { time = w.time + 1 })

abbrev pub settings : Config
settings = record {
  namespace = "app.load";
  fingerprint = "f0";
  ttl_seconds = some 60;
  dependencies = "env:MODE" ∷ [];
  verify_probability = 0;
  process_flight = false;
  jit_boundary = false;
  fuel = 10;
}

-- Lock files of a process that is alone.
abbrev pub alone : LockFiles Room
alone = record {
  create_lock = λ p w. (created, w);
  write_token = λ p t w. (true, w);
  unlink = λ p w. (true, w);
  read_token = λ p w. some "t";
  modified_at = λ p w. some w.time;
  wall_clock = tick;
  monotonic = tick;
  sleep = λ d w. record w { time = w.time + d };
  new_token = λ w. ("t", w);
}

abbrev pub counter : Env
counter = record {
  World = Room;
  Value = ℕ;
  Exn = Unit;
  Args = String;
  config = settings;
  store = memory_backend Unit (λ w. w.entries) (λ entries w. record w { entries = entries });
  files = alone;
  lock_path = λ key. key;
  func = λ args w. (ok (w.runs + 1), record w { runs = w.runs + 1; time = w.time + 5 });
  signatures = λ w. none;
  digest = λ args w. (ok args, w);
  fingerprint_of = λ label w. (ok w.mode, w);
  clock = tick;
  perf_counter = tick;
  random = λ w. (0, w);
  size_of = λ value w. (ok (pos 40), w);
  digest_value = λ value. none;
  pickle_dumps = λ value. none;
  warn = λ w. (ok tt, w);
}

abbrev pub start : State Room
start = record {
  tallies = λ name. 0;
  saved_basis_seconds = 0;
  saved_basis_count = 0;
  invalidation_markers = [];
  pending_invalidations = [];
  eviction_markers = [];
  pending_eviction_deletes = [];
  budget = some (new_budget 100);
  last_observed = none;
  slots = [];
  world = record { entries = []; time = 1000; runs = 0; mode = "v:prod" };
}
