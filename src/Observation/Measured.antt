-- ===== src/Observation/Measured.antt =====
-- src/cachau/decorator.py: what `profile` writes, and what it reports.
use cachau.Control.{Env, State}
use cachau.Observation.Profiling.{
  CacheProfile, Bound, measure, size_of_value, write_throwaway, remove_throwaway, profile, natural,
}
use cachau.Observation.Purity.{
  Observed, Observed-order, lift-Keeps, build_key-Keeps, peek_now-Keeps, current-Keeps,
}
use cachau.Observation.Rounds.{measure-Keeps}
use cachau.Prelude.Exec.Keeps.{Keeps, Keeps-pure, Keeps-bind, Keeps-attempt, Keeps-finally}
use cachau.Prelude.Exec.Yields.{Holds, Yields, Yields-pure, Yields-bind, anything}
use cachau.Prelude.Exec.{finally}
use cachau.Prelude.{
  ℕ, zero, suc, String, Bool, true, false, Option, none, some, is_some, max_of, ◌≡◌, refl,
}
use cachau.Profile.{IsHonest, diagnose-IsHonest}
use cachau.Wrapper.{M, lift, ask, build_key, new_entry}

-- The verdict is of the band of the ratio that was measured, and the advice goes with it.
abbrev pub IsMeasured : ℕ → Option CacheProfile → Type 0
IsMeasured repeats none = repeats ≡ 0
IsMeasured repeats (some p) =
    IsHonest p.compute_seconds p.key_seconds p.read_seconds p.diagnosis × (p.repeats ≡ repeats)

module _ (env : Env) (bound : Bound env) where
  ask-Keeps : {A : Type 0} (op : env.World → A × env.World) → Keeps Observed (ask env op)
  unfolding ask
  ask-Keeps op = record { at = λ s. refl }

  measured-Keeps :
      {A : Type 0} {m : M env A}
      → Keeps Observed m
      → (n : ℕ) → Keeps Observed (measure env bound m n)
  measured-Keeps km n = measure-Keeps env bound Observed-order (ask-Keeps env.perf_counter) km n

  size-Keeps : (value : env.Value) → Keeps Observed (size_of_value env bound value)
  unfolding size_of_value
  size-Keeps value =
      Keeps-attempt Observed-order (lift-Keeps env (env.size_of value))
        (λ size. Keeps-pure Observed-order (natural size)) (Keeps-pure Observed-order none)

  write-Keeps :
      (key : String) (value : env.Value) (size : Option ℕ) (existed : Bool)
      → Keeps Observed (write_throwaway env bound key value size existed)
  unfolding write_throwaway
  write-Keeps key value size true = Keeps-pure Observed-order false
  write-Keeps key value size false = Keeps-bind Observed-order (peek_now-Keeps env) λ created_at.
      Keeps-attempt Observed-order
        (Keeps-bind Observed-order (current-Keeps env)
          λ deps. lift-Keeps env (env.store.set key (new_entry env value created_at size deps)))
        (λ _. Keeps-pure Observed-order true) (Keeps-pure Observed-order false)

  remove-Observed :
      (key : String) (wrote : Bool) (s : State env.World)
      → Observed s (remove_throwaway env bound key wrote s)
  remove-Observed key false s = refl
  remove-Observed key true s =
      (Keeps-attempt Observed-order (lift-Keeps env (env.store.delete key))
          (λ a. Keeps-pure Observed-order a) (Keeps-pure Observed-order tt)).at
        s

  profile-Keeps : (args : env.Args) (repeats : ℕ) → Keeps Observed (profile env bound args repeats)
  unfolding profile
  profile-Keeps args zero = Keeps-pure Observed-order none
  profile-Keeps args (suc rounds) = Keeps-bind Observed-order (build_key-Keeps env args) λ key.
      Keeps-bind Observed-order (lift-Keeps env (env.func args)) λ value.
        Keeps-bind Observed-order (measured-Keeps (lift-Keeps env (env.func args)) rounds)
          λ compute.
            Keeps-bind Observed-order (measured-Keeps (build_key-Keeps env args) (max_of rounds 19))
              λ key_time. Keeps-bind Observed-order (size-Keeps value) λ size.
                Keeps-bind Observed-order (lift-Keeps env (env.store.get key)) λ found.
                  Keeps-bind Observed-order (write-Keeps key value size (is_some found)) λ wrote.
                    Keeps-bind Observed-order
                      (Keeps-finally Observed-order (remove_throwaway env bound key wrote)
                        (measured-Keeps (lift-Keeps env (env.store.get key)) (max_of rounds 19))
                        (remove-Observed key wrote))
                      λ read.
                        Keeps-bind Observed-order (lift-Keeps env (bound.largest args))
                          λ largest. Keeps-pure Observed-order _

  profile-Yields :
      (args : env.Args) (repeats : ℕ) → Yields (IsMeasured repeats) (profile env bound args repeats)
  unfolding profile
  profile-Yields args zero = Yields-pure none refl
  profile-Yields args (suc rounds) = Yields-bind (anything (build_key env args)) λ key _.
      Yields-bind (anything (lift env (env.func args))) λ value _.
        Yields-bind (anything (measure env bound (lift env (env.func args)) rounds)) λ compute _.
          Yields-bind (anything (measure env bound (build_key env args) (max_of rounds 19)))
            λ key_time _. Yields-bind (anything (size_of_value env bound value)) λ size _.
              Yields-bind (anything (lift env (env.store.get key))) λ found _.
                Yields-bind (anything (write_throwaway env bound key value size (is_some found)))
                  λ wrote _.
                    Yields-bind
                      (anything (
                        finally
                          (measure env bound (lift env (env.store.get key)) (max_of rounds 19))
                          (remove_throwaway env bound key wrote)))
                      λ read _. Yields-bind (anything (lift env (bound.largest args))) λ largest _.
                        Yields-pure _ (diagnose-IsHonest compute key_time read largest, refl)

  -- `profile`, whether it returns or raises, leaves every counter, marker, lock and budget as it was,
  -- and the clamped clock too: nothing but the outside world may differ. What it returns has the verdict
  -- of the band that the measured times are in, with advice that goes with the verdict, and only less
  -- than one repeat is refused as a configuration error.
  pub profile-IsMeasured :
      (args : env.Args) (repeats : ℕ) (s : State env.World)
      → Observed s (profile env bound args repeats s).1
        × Holds (IsMeasured repeats) (profile env bound args repeats s).0
  profile-IsMeasured args repeats s =
      ((profile-Keeps args repeats).at s, (profile-Yields args repeats).at s)
