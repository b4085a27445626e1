-- ===== src/Observation/Forget.antt =====
-- src/cachau/decorator.py: `invalidate` and `clear`.
use cachau.Control.{Env, delete_errors, invalidations, marker_cap, note_mark}
use cachau.Policy
use cachau.Prelude.Exec.{attempt, modify, ◌>>=◌, ◌>>◌}
use cachau.Prelude.{String, List, [], ◌∷◌, ◌++◌, discard, some}
use cachau.Wrapper.{M, lift, count, on_budget, forget_budget, build_key, holding}

-- `set.add`, on an ordered list of the members
abbrev pub add_member : String → List String → List String
add_member key members = discard key members ++ key ∷ []

module _ (env : Env) where
  -- The body under the key's lock.
  unfoldable pub invalidate_locked : String → M env (Unit {0})
  invalidate_locked key = do
    attempt (lift env (env.store.delete key))
        (λ _. modify (λ s. record s {
          invalidation_markers = note_mark marker_cap key s.invalidation_markers;
        }))
        (do
          count env delete_errors 1
          modify (λ s. record s { pending_invalidations = add_member key s.pending_invalidations }))
    forget_budget env key
    count env invalidations 1

  unfoldable pub invalidate_key : String → M env (Unit {0})
  unfolding invalidate_locked
  invalidate_key key = holding env key (invalidate_locked key)

  unfoldable pub invalidate : env.Args → M env (Unit {0})
  invalidate args = do key ← build_key env args; invalidate_key key

  unfoldable pub clear : M env (Unit {0})
  clear = do
    lift env (env.store.clear (some env.namespace))
    modify (on_budget Policy.reset)
    modify (λ s. record s {
      invalidation_markers = [];
      pending_invalidations = [];
      eviction_markers = [];
      pending_eviction_deletes = [];
    })
