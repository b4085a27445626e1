-- ===== src/Control/Setting.antt =====
-- src/cachau/decorator.py: what `_wrap` fixes at decoration, and what a decorated function runs in.
use cachau.Backend.{CacheBackend}
use cachau.Interprocess.{LockFiles}
use cachau.Prelude.Exec.{Result}
use cachau.Prelude.Int.{ℤ}
use cachau.Prelude.{ℕ, ◌^◌, String, List, Bool, Option}

-- The settings. A probability is counted in units of 2^-53, the grain of `random()`.
pub record Config : Type 0 where
  pub namespace : String
  pub fingerprint : String
  pub ttl_seconds : Option ℕ
  pub dependencies : List String
  pub verify_probability : ℕ
  pub process_flight : Bool
  pub jit_boundary : Bool
  -- how many rounds `coordinate` is given
  pub fuel : ℕ

abbrev pub certain : ℕ
certain = 2 ^ 53

-- The function, the store, the clocks and the operating system, over the state of the outside world.
pub record Env : Type 1 where
  pub World : Type 0
  pub Value : Type 0
  pub Exn : Type 0
  pub Args : Type 0
  pub config : Config
  pub open config use *
  pub store : CacheBackend World Value Exn
  pub files : LockFiles World
  pub lock_path : String → String
  -- the wrapped function, and how many signatures its dispatcher has compiled, if it says
  pub func : Args → World → Result Exn Value × World
  pub signatures : World → Option ℕ
  -- the digest of the arguments or of the custom key
  pub digest : Args → World → Result Exn String × World
  pub fingerprint_of : String → World → Result Exn String × World
  pub clock : World → ℕ × World
  pub perf_counter : World → ℕ × World
  pub random : World → ℕ × World
  pub size_of : Value → World → Result Exn ℤ × World
  pub digest_value : Value → Option String
  pub pickle_dumps : Value → Option String
  pub warn : World → Result Exn (Unit {0}) × World
