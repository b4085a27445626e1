-- ===== src/Observation/Quarantine.antt =====
-- src/cachau/decorator.py: what `invalidate` promises, also where the store fails to delete.
use cachau.Backend.Laws.{StoreLaws}
use cachau.Control.{Env, State, invalidations, bump}
use cachau.Observation.Forget.{invalidate_key}
use cachau.Prelude.Dict.{Dict}
use cachau.Prelude.Exec.{ok, ◌>>=◌}
use cachau.Prelude.{
  ◌+◌, String, List, [], ◌∷◌, ◌++◌, Bool, true, Option, none, ◌≡◌, arith, contains, discard,
  contains-append, eq_refl,
}
use cachau.Wrapper.{lift, count, on_budget, forget_budget, holding, fresh_entry, serve_if_fresh}

contains-add :
    (key : String) (members : List String) → contains (discard key members ++ key ∷ []) key ≡ true
unfolding contains
contains-add key members =
    ground (arith, contains-append (discard key members) (key ∷ []) key, eq_refl key)

module _ (env : Env) (laws : StoreLaws env.store) where
  -- Over a store with `StoreLaws`, after `invalidate` has built the key, nothing is served for it,
  -- whether the store could delete the entry or not; the method does not raise, and counts itself
  -- once.
  pub invalidate_key-unserved :
      (key : String) (d : Option (Dict String)) (coalesced : Bool) (s : State env.World)
      → ((invalidate_key env key s).0 ≡ ok tt)
        × ((serve_if_fresh env key d coalesced (invalidate_key env key s).1).0 ≡ ok none)
        × ((invalidate_key env key s).1.tallies invalidations ≡ s.tallies invalidations + 1)
  unfolding invalidate_key holding serve_if_fresh fresh_entry lift count bump forget_budget ◌>>=◌
      on_budget
  invalidate_key-unserved key d coalesced s = (
    ground arith,
    ground (arith, laws.get_after_delete key s.world, contains-add key s.pending_invalidations),
    ground arith,
  )
