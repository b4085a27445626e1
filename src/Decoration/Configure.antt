-- ===== src/Decoration/Configure.antt =====
-- src/cachau/decorator.py: the options of `cache`, and how `_wrap` checks them, first to last.
use cachau.Backend.{CacheBackend}
use cachau.Control.{Config, certain}
use cachau.Decoration.Startup.{Started, start_up}
use cachau.Dependencies.Normalize.{DependsOn, ConfigurationError, normalize_dependencies}
use cachau.Prelude.Exec.{Result, ok, raise, Exec, pure, ◌>>=◌, ◌>>◌}
use cachau.Prelude.Int.{pos}
use cachau.Prelude.{
  ℕ, ◌*◌, String, List, [], ◌∷◌, Bool, true, false, ◌&&◌, ◌||◌, not, Option, none, some, str_eq,
  leb, contains, if◌then◌else◌,
}
use cachau.Settings.Durations.{TtlError, parse_ttl}
use cachau.Settings.Sizes.{SizeError, parse_size}
use cachau.Settings.{Float, finite, Setting, boolean, integer, real}

-- `persist=`
pub data Persist : Type 0 where
  no : Persist
  default_directory : Persist
  directory : String → Persist

pub record Options : Type 0 where
  pub key_given : Bool
  pub ignore : List String
  pub verify : Setting
  pub depends_on : DependsOn
  pub ttl : Setting
  pub max_memory : Setting
  pub namespace : Option String
  pub persist : Persist
  -- `backend=`, and whether it has a `lock_path`
  pub backend : Option Bool
  pub coalesce : String

-- The store that `_resolve_backend` returns.
pub data Resolved : Type 0 where
  disk : String → Resolved
  given : Bool → Resolved
  shared_memory : Resolved

-- `hasattr(store, "lock_path")`
abbrev pub has_lock_path : Resolved → Bool
has_lock_path (disk d) = true
has_lock_path (given b) = b
has_lock_path shared_memory = false

pub data Problem (Exn : Type 0) : Type 0 where
  key_and_ignore : Problem Exn
  not_a_probability : Problem Exn
  unknown_parameters : List String → Problem Exn
  dependency_problem : ConfigurationError → Problem Exn
  ttl_problem : TtlError → Problem Exn
  size_problem : SizeError → Problem Exn
  persist_and_backend : Problem Exn
  unknown_coalesce : Problem Exn
  no_lock_path : Problem Exn
  -- what the warning, the creation of the directory and the listing of the store raise
  foreign : Exn → Problem Exn

-- The function that is decorated, and Python's own conversions.
pub record Decorated (World Exn : Type 0) : Type 0 where
  pub parameters : List String
  pub function_namespace : String
  pub fingerprint : String
  pub jit_boundary : Bool
  pub machine_code_cache : Bool
  pub warn : World → Result Exn (Unit {0}) × World
  pub make_directory : String → World → Result Exn (Unit {0}) × World
  pub float_of : String → Option Float
  pub upper : String → String

-- What the checks leave.
pub record Configured : Type 0 where
  pub ignored : List String
  pub max_memory_bytes : Option ℕ
  pub backend : Resolved
  pub config : Config

-- `float(verify)`, where it is between 0 and 1. A float is counted in units of 2^-53.
unfoldable pub probability : Setting → Option ℕ
probability (boolean true) = some certain
probability (boolean false) = some 0
probability (integer (pos n)) = if leb n 1 then some (n * certain) else none
probability (real (finite (pos n))) = if leb n certain then some n else none
probability _ = none

-- `set(ignore) - parameters`, as a list
unfoldable pub unknown_names : List String → List String → List String
unknown_names parameters [] = []
unknown_names parameters (name ∷ names) =
    let rest = unknown_names parameters names in
    if contains parameters name then rest else name ∷ rest

abbrev pub is_empty : List String → Bool
is_empty [] = true
is_empty (name ∷ names) = false

-- `".cachau"`
abbrev pub default_persist_dir : String
default_persist_dir = ".cachau"

module _ {World Exn : Type 0} (function : Decorated World Exn) where
  abbrev pub Act : Type 0 → Type 0
  Act A = Exec (Problem Exn) World A

  abbrev pub check : Bool → Problem Exn → Act (Unit {0})
  check true problem w = (ok tt, w)
  check false problem w = (raise problem, w)

  abbrev pub the_value : {A : Type 0} → Option A → Problem Exn → Act A
  the_value none problem w = (raise problem, w)
  the_value (some a) problem w = (ok a, w)

  -- A result of a parser, its error told apart.
  abbrev pub parsed : {A E : Type 0} → (E → Problem Exn) → Result E A → Act A
  parsed problem (ok a) w = (ok a, w)
  parsed problem (raise e) w = (raise (problem e), w)

  -- A call of the outside world.
  abbrev pub outside : {A : Type 0} → Result Exn A × World → Result (Problem Exn) A × World
  outside (ok a, w) = (ok a, w)
  outside (raise e, w) = (raise (foreign e), w)

  -- `_validate_ignore`
  unfoldable pub validate_ignore : List String → Act (List String)
  unfolding unknown_names
  validate_ignore ignore = do
    check (is_empty (unknown_names function.parameters ignore))
        (unknown_parameters (unknown_names function.parameters ignore))
    pure ignore

  abbrev pub on_disk : String → Act Resolved
  on_disk name = do (λ w. outside (function.make_directory name w)); pure (disk name)

  -- `_resolve_backend`
  unfoldable pub resolve_backend : Persist → Option Bool → Act Resolved
  resolve_backend no none = pure shared_memory
  resolve_backend no (some has) = pure (given has)
  resolve_backend default_directory (some has) = the_value none persist_and_backend
  resolve_backend (directory name) (some has) = the_value none persist_and_backend
  resolve_backend default_directory none = on_disk default_persist_dir
  resolve_backend (directory name) none = on_disk name

  abbrev pub warn_if : Bool → Act (Unit {0})
  warn_if true w = outside (function.warn w)
  warn_if false w = (ok tt, w)

  abbrev pub or_default : Option String → String
  or_default none = function.function_namespace
  or_default (some namespace) = namespace

  -- The checks of `_wrap`, in their order. `fuel` is for `coordinate`.
  unfoldable pub configure : ℕ → Options → Act Configured
  unfolding probability validate_ignore normalize_dependencies parse_ttl parse_size resolve_backend
  configure fuel o = do
    check (not (o.key_given && not (is_empty o.ignore))) key_and_ignore
    verify_probability ← the_value (probability o.verify) not_a_probability
    ignored ← validate_ignore o.ignore
    dependencies ← parsed dependency_problem (normalize_dependencies o.depends_on)
    ttl_seconds ← parsed ttl_problem (parse_ttl function.float_of o.ttl)
    max_memory_bytes ←
        parsed size_problem (parse_size function.float_of function.upper o.max_memory)
    warn_if (function.jit_boundary && function.machine_code_cache)
    backend ← resolve_backend o.persist o.backend
    check (str_eq o.coalesce "threads" || str_eq o.coalesce "processes") unknown_coalesce
    check (not (str_eq o.coalesce "processes" && not (has_lock_path backend))) no_lock_path
    pure record {
      ignored = ignored;
      max_memory_bytes = max_memory_bytes;
      backend = backend;
      config = record {
        namespace = or_default o.namespace;
        fingerprint = function.fingerprint;
        ttl_seconds = ttl_seconds;
        dependencies = dependencies;
        verify_probability = verify_probability;
        process_flight = str_eq o.coalesce "processes";
        jit_boundary = function.jit_boundary;
        fuel = fuel;
      };
    }

  module _ {V : Type 0} (store_of : Resolved → CacheBackend World V Exn) where
    -- `_wrap` up to its inner functions.
    unfoldable pub wrap : ℕ → Options → Act (Configured × Started)
    unfolding configure start_up
    wrap fuel o = do
      c ← configure fuel o
      started ← (λ w. outside (
          start_up (store_of c.backend) c.max_memory_bytes c.config.namespace c.config.fingerprint
            w))
      pure (c, started)
