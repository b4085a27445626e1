-- ===== src/Observation/Profiling.antt =====
-- src/cachau/decorator.py: `CacheControl.profile`, and `measure` of src/cachau/profile.py.
-- A duration is what `perf_counter` went on by.
use cachau.Control.{Env, State}
use cachau.Observation.Explain.{peek_now}
use cachau.Prelude.Exec.{Result, pure, attempt, finally, ◌>>=◌, ◌>>◌}
use cachau.Prelude.Int.{ℤ, pos, negsuc}
use cachau.Prelude.{
  ℕ, zero, suc, ◌-◌, String, List, [], ◌∷◌, Bool, true, false, Option, none, some, is_some, max_of,
  min_of, contains, if◌then◌else◌,
}
use cachau.Profile.{Diagnosis, diagnose}
use cachau.Wrapper.{M, lift, ask, build_key, current_dependencies, new_entry}

pub record CacheProfile : Type 0 where
  pub namespace : String
  pub key : String
  pub repeats : ℕ
  pub compute_seconds : ℕ
  pub key_seconds : ℕ
  pub read_seconds : ℕ
  pub size_bytes : Option ℕ
  pub diagnosis : Diagnosis
  pub unfingerprinted_calls : List String

-- Of pairs of a name and a namespace, the names whose namespace was not declared.
unfoldable pub undeclared : List (String × String) → List String → List String
undeclared [] declared_code = []
undeclared ((name, namespace) ∷ helpers) declared_code =
    let rest = undeclared helpers declared_code in
    if contains declared_code namespace then rest else name ∷ rest

-- An estimate below zero is left out.
abbrev pub natural : ℤ → Option ℕ
natural (pos n) = some n
natural (negsuc n) = none

-- `largest_data_arg(normalize_call(...))`, `referenced_global_functions` with each helper's namespace,
-- and the namespaces of the declared code.
pub record Bound (env : Env) : Type 0 where
  pub largest : env.Args → env.World → Result env.Exn (Option (String × ℕ)) × env.World
  pub helpers : List (String × String)
  pub declared_code : List String

module _ (env : Env) (bound : Bound env) where
  unfoldable pub timed : {A : Type 0} → M env A → M env ℕ
  timed m = do
    start ← ask env env.perf_counter
    m
    stop ← ask env env.perf_counter
    pure (stop - start)

  -- The rounds of `measure` after the first.
  unfoldable pub more_rounds : {A : Type 0} → M env A → ℕ → ℕ → M env ℕ
  unfolding timed
  more_rounds m zero best = pure best
  more_rounds m (suc rounds) best = do t ← timed m; more_rounds m rounds (min_of best t)

  unfoldable pub measure : {A : Type 0} → M env A → ℕ → M env ℕ
  unfolding more_rounds
  measure m rounds = do t ← timed m; more_rounds m rounds t

  unfoldable pub size_of_value : env.Value → M env (Option ℕ)
  size_of_value value =
      attempt (lift env (env.size_of value)) (λ size. pure (natural size)) (pure none)

  -- Whether the throwaway copy was written.
  unfoldable pub write_throwaway : String → env.Value → Option ℕ → Bool → M env Bool
  unfolding peek_now current_dependencies
  write_throwaway key value size true = pure false
  write_throwaway key value size false = do
    created_at ← peek_now env
    attempt
        (current_dependencies env >>= λ deps.
          lift env (env.store.set key (new_entry env value created_at size deps)))
        (λ _. pure true) (pure false)

  abbrev pub remove_throwaway : String → Bool → State env.World → State env.World
  remove_throwaway key false s = s
  remove_throwaway key true s = (attempt (lift env (env.store.delete key)) pure (pure tt) s).1

  -- `none` is the `ConfigurationError` of less than one repeat.
  unfoldable pub profile : env.Args → ℕ → M env (Option CacheProfile)
  unfolding build_key measure size_of_value write_throwaway undeclared
  profile args zero = pure none
  profile args (suc rounds) = do
    key ← build_key env args
    value ← lift env (env.func args)
    compute ← measure (lift env (env.func args)) rounds
    key_time ← measure (build_key env args) (max_of rounds 19)
    size ← size_of_value value
    found ← lift env (env.store.get key)
    wrote ← write_throwaway key value size (is_some found)
    read ←
        finally (measure (lift env (env.store.get key)) (max_of rounds 19))
          (remove_throwaway key wrote)
    largest ← lift env (bound.largest args)
    pure (
        some record {
          namespace = env.namespace;
          key = key;
          repeats = suc rounds;
          compute_seconds = compute;
          key_seconds = key_time;
          read_seconds = read;
          size_bytes = size;
          diagnosis = diagnose compute key_time read largest;
          unfingerprinted_calls = undeclared bound.helpers bound.declared_code;
        })
