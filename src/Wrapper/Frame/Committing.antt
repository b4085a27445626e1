-- ===== src/Wrapper/Frame/Committing.antt =====
-- The functions of src/cachau/decorator.py that write and delete: a relation with a frame is kept.
use cachau.Control.{
  Env, State, delete_errors, dependency_race_skips, size_estimate_failures, skipped_oversized,
  write_errors, evictions, note_eviction, note_recached,
}
use cachau.Policy.{LruBudget, fits, admit}
use cachau.Prelude.Dict.{Dict}
use cachau.Prelude.Exec.Keeps.{
  Keeps, Keeps-pure, Keeps-gets, Keeps-modify, Keeps-bind, Keeps-attempt, Keeps-if, keeps_after,
  keeps_gets, attempt_at,
}
use cachau.Prelude.Exec.{pure, modify}
use cachau.Prelude.Int.{ℤ, pos, negsuc}
use cachau.Prelude.{
  ℕ, String, List, [], ◌∷◌, Bool, true, Option, none, some, ◌≡◌, refl, arith, inl, inr, Bool-cases,
}
use cachau.Wrapper.Action.{lift}
use cachau.Wrapper.Commit.{
  safe_delete, evict_delete, retry_delete, retry_all, drain_pending_evictions, evict_all,
  admit_into, after_write, write, write_sized, write_under, commit_stable, commit_result,
}
use cachau.Wrapper.Frame.Defs.{Frame, AllowsCommit, lift-Keeps, count-Keeps}
use cachau.Wrapper.Frame.Serving.{now-Keeps, current_dependencies-Keeps}

-- Where there is a budget and a size, the size fits.
abbrev pub Fitting : Option LruBudget → Option ℕ → Type 0
Fitting budget size = (b : LruBudget) (n : ℕ) → budget ≡ some b → size ≡ some n → fits b n ≡ true

module _ (env : Env) {R : State env.World → State env.World → Type 0} (f : Frame R) where
  pub safe_delete-Keeps : (key : String) → Keeps R (safe_delete env key)
  unfolding safe_delete
  safe_delete-Keeps key =
      Keeps-attempt f.order (lift-Keeps env f _) (Keeps-pure f.order)
        (count-Keeps env f delete_errors 1 refl)

  evict_delete-Keeps : (key : String) → Keeps R (evict_delete env key)
  unfolding evict_delete
  evict_delete-Keeps key = Keeps-attempt f.order (lift-Keeps env f _) (Keeps-pure f.order) (
      Keeps-bind f.order (count-Keeps env f delete_errors 1 refl)
        λ _. Keeps-modify _ (λ s. f.on_marks s _ _ _ _))

  retry_all-Keeps : (batch : List String) → Keeps R (retry_all env batch)
  unfolding retry_all retry_delete
  retry_all-Keeps [] = Keeps-pure f.order tt
  retry_all-Keeps (key ∷ batch) =
      Keeps-bind f.order
        (Keeps-attempt f.order (lift-Keeps env f _)
          (λ _. Keeps-modify _ (λ s. f.on_marks s _ _ _ _)) (Keeps-pure f.order tt))
        λ _. retry_all-Keeps batch

  drain-Keeps : (key : String) → Keeps R (drain_pending_evictions env key)
  unfolding drain_pending_evictions
  drain-Keeps key = Keeps-bind f.order (Keeps-gets f.order _) retry_all-Keeps

  evict_all-Keeps : (evicted : List String) → Keeps R (evict_all env evicted)
  unfolding evict_all note_eviction
  evict_all-Keeps [] = Keeps-pure f.order tt
  evict_all-Keeps (key ∷ evicted) = Keeps-bind f.order (evict_delete-Keeps key) λ _.
      Keeps-bind f.order (count-Keeps env f evictions 1 refl) λ _.
        Keeps-bind f.order (Keeps-modify _ (λ s. f.on_marks s _ _ _ _)) λ _. evict_all-Keeps evicted

  admit_into_at :
      (budget : Option LruBudget) (key : String) (size : Option ℕ) (s : State env.World)
      → s.budget ≡ budget
      → Fitting budget size
      → R s (admit_into env budget key size s).1
  unfolding pure
  admit_into_at none key size s e fit = f.order.here s
  admit_into_at (some b) key none s e fit = f.order.here s
  admit_into_at (some b) key (some n) s e fit =
      keeps_after f.order _ s (unfold modify in f.on_admit s b key n e (fit b n refl refl))
        λ _. evict_all-Keeps (admit b key n).1

  module _ (c : AllowsCommit R) where
    after_write_at :
        (key : String) (size : Option ℕ) (elapsed : ℕ) (cold : Bool) (s : State env.World)
        → Fitting s.budget size
        → R s (after_write env key size elapsed cold s).1
    unfolding after_write
    after_write_at key size elapsed cold s fit = keeps_gets R _ _ s (
        keeps_after f.order _ s (admit_into_at s.budget key size s refl fit) λ _.
          Keeps-bind f.order (Keeps-modify _ (λ t. f.on_marks t _ _ _ _)) λ _.
            Keeps-bind f.order (drain-Keeps key) λ _.
              Keeps-bind f.order (Keeps-modify _ (c.on_commit _)) λ _.
                Keeps-bind f.order (Keeps-modify _ (λ t. f.on_marks t _ _ _ _))
                  λ _. Keeps-modify _ (λ t. unfold note_recached in f.on_marks t _ _ _ _))

    write_at :
        (key : String) (value : env.Value) (at : ℕ) (size : Option ℕ) (d : Option (Dict String))
        (elapsed : ℕ) (cold : Bool) (s : State env.World)
        → Fitting s.budget size
        → R s (write env key value at size d elapsed cold s).1
    unfolding write lift
    write_at key value at size d elapsed cold s fit =
        attempt_at R _ _ _ s
          (λ _. f.order.after (f.on_world s _) (after_write_at key size elapsed cold _ fit))
          (f.order.after (f.on_world s _) ((count-Keeps env f write_errors 1 refl).at _))

    write_sized_at :
        (b : LruBudget) (size : ℤ) (key : String) (value : env.Value) (at : ℕ)
        (d : Option (Dict String)) (elapsed : ℕ) (cold : Bool) (s : State env.World)
        → s.budget ≡ some b
        → R s (write_sized env b size key value at d elapsed cold s).1
    write_sized_at b (negsuc n) key value at d elapsed cold s e =
        (count-Keeps env f size_estimate_failures 1 refl).at s
    write_sized_at b (pos n) key value at d elapsed cold s e = elim (Bool-cases (fits b n)) [
      | inl fit ↦ rw fit (write_at key value at (some n) d elapsed cold s λ c m ec em. ground arith)
      | inr big ↦ rw big ((count-Keeps env f skipped_oversized 1 refl).at s)
    ]

    write_under_at :
        (budget : Option LruBudget) (key : String) (value : env.Value) (at : ℕ)
        (d : Option (Dict String)) (elapsed : ℕ) (cold : Bool) (s : State env.World)
        → s.budget ≡ budget
        → R s (write_under env budget key value at d elapsed cold s).1
    unfolding lift
    write_under_at none key value at d elapsed cold s e =
        write_at key value at none d elapsed cold s λ c m ec em. cc
    write_under_at (some b) key value at d elapsed cold s e =
        attempt_at R _ _ _ s
          (λ size.
            f.order.after (f.on_world s _) (write_sized_at b size key value at d elapsed cold _ e))
          (f.order.after (f.on_world s _) ((count-Keeps env f size_estimate_failures 1 refl).at _))

    commit_stable-Keeps :
        (key : String) (value : env.Value) (d : Option (Dict String)) (elapsed : ℕ) (cold : Bool)
        → Keeps R (commit_stable env key value d elapsed cold)
    unfolding commit_stable
    commit_stable-Keeps key value d elapsed cold = Keeps-bind f.order (now-Keeps env f) λ at.
        record {
          at = λ s. keeps_gets R _ _ s (write_under_at s.budget key value at d elapsed cold s refl);
        }

    pub commit_result-Keeps :
        (key : String) (value : env.Value) (d : Option (Dict String)) (elapsed : ℕ) (cold : Bool)
        → Keeps R (commit_result env key value d elapsed cold)
    unfolding commit_result
    commit_result-Keeps key value d elapsed cold =
        Keeps-if _
          (Keeps-bind f.order (current_dependencies-Keeps env f) λ d'.
            Keeps-if _ (count-Keeps env f dependency_race_skips 1 refl)
              (commit_stable-Keeps key value d' elapsed cold))
          (commit_stable-Keeps key value d elapsed cold)
