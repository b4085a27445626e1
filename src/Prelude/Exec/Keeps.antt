-- ===== src/Prelude/Exec/Keeps.antt =====
-- Relations between the state before an action and the state after it, whether it returns or raises:
-- one rule for each way to build an action, for a relation that is reflexive and transitive.
use cachau.Prelude.Exec.{
  Result, ok, raise, Exec, modify, pure, gets, run, finally, attempt, continue, caught, ◌>>=◌,
}
use cachau.Prelude.Tests.{if◌then◌else◌}
use mathlib.Core.Bool.{Bool, true, false}

pub record Keeps {ℓ κ} {E S A : Type ℓ} (R : S → S → Type κ) (m : Exec E S A) : Type (ℓ ⊔ κ) where
  pub at : (s : S) → R s (m s).1

-- What makes a relation serve as an invariant of actions.
pub record IsPreorder {ℓ κ} {S : Type ℓ} (R : S → S → Type κ) : Type (ℓ ⊔ κ) where
  pub here : (s : S) → R s s
  pub after : {s t u : S} → R s t → R t u → R s u

module _ {ℓ κ} {E S : Type ℓ} {R : S → S → Type κ} where
  pub Keeps-modify : (f : S → S) → ((s : S) → R s (f s)) → Keeps R (modify {E = E} f)
  unfolding modify
  Keeps-modify f h = record { at = h }

module _ {ℓ κ} {E S A : Type ℓ} {R : S → S → Type κ} where
  pub Keeps-run : (f : S → A × S) → ((s : S) → R s (f s).1) → Keeps R (run {E = E} f)
  unfolding run
  Keeps-run f h = record { at = h }

  pub Keeps-if :
      (b : Bool) {m n : Exec E S A} → Keeps R m → Keeps R n → Keeps R (if b then m else n)
  Keeps-if true km kn = km
  Keeps-if false km kn = kn

-- What is read from the state is known to the rest.
pub keeps_gets {ℓ κ} :
    {E S A B : Type ℓ} (R : S → S → Type κ) (g : S → A) (f : A → Exec E S B) (s : S)
    → R s (f (g s) s).1
    → R s ((gets g >>= f) s).1
unfolding ◌>>=◌
keeps_gets R g f s h = h

-- From one state: either way of going on after the attempt.
pub attempt_at {ℓ κ} :
    {E S A B : Type ℓ} (R : S → S → Type κ) (m : Exec E S A) (f : A → Exec E S B)
    (handler : Exec E S B) (s : S)
    → ((a : A) → R s (f a (m s).1).1)
    → R s (handler (m s).1).1
    → R s (attempt m f handler s).1
unfolding attempt
attempt_at {E} {S} {A} {B} R m f handler s kf kh = rest (m s).0
  where
    rest : (r : Result E A) → R s (caught r f handler (m s).1).1
    rest (ok a) = kf a
    rest (raise e) = kh

module _ {ℓ κ} {S : Type ℓ} {R : S → S → Type κ} (o : IsPreorder R) where
  module _ {E A : Type ℓ} where
    pub Keeps-pure : (a : A) → Keeps R (pure {E = E} {S = S} a)
    unfolding pure
    Keeps-pure a = record { at = λ s. o.here s }

    pub Keeps-gets : (f : S → A) → Keeps R (gets {E = E} f)
    unfolding gets
    Keeps-gets f = record { at = λ s. o.here s }

    pub Keeps-finally :
        {m : Exec E S A} (f : S → S) → Keeps R m → ((s : S) → R s (f s)) → Keeps R (finally m f)
    unfolding finally
    Keeps-finally {m} f km h = record { at = λ s. o.after (km.at s) (h (m s).1) }

  module _ {E A B : Type ℓ} where
    -- From one state: what the first action does there is known, the rest keeps the relation.
    pub keeps_after :
        (m : Exec E S A) {f : A → Exec E S B} (s : S)
        → R s (m s).1
        → ((a : A) → Keeps R (f a))
        → R s ((m >>= f) s).1
    unfolding ◌>>=◌
    keeps_after m {f} s h kf = rest (m s).0
      where
        rest : (r : Result E A) → R s (continue r f (m s).1).1
        rest (ok a) = o.after h ((kf a).at (m s).1)
        rest (raise e) = h

    pub Keeps-bind :
        {m : Exec E S A} {f : A → Exec E S B}
        → Keeps R m
        → ((a : A) → Keeps R (f a))
        → Keeps R (m >>= f)
    Keeps-bind {m} km kf = record { at = λ s. keeps_after m s (km.at s) kf }

    pub Keeps-attempt :
        {m : Exec E S A} {f : A → Exec E S B} {handler : Exec E S B}
        → Keeps R m
        → ((a : A) → Keeps R (f a))
        → Keeps R handler
        → Keeps R (attempt m f handler)
    unfolding attempt
    Keeps-attempt {m} {f} {handler} km kf kh = record { at = λ s. rest (m s).0 s (m s).1 (km.at s) }
      where
        rest : (r : Result E A) (s t : S) → R s t → R s (caught r f handler t).1
        rest (ok a) s t h = o.after h ((kf a).at t)
        rest (raise e) s t h = o.after h (kh.at t)
