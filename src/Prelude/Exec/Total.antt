-- ===== src/Prelude/Exec/Total.antt =====
-- Actions that never raise, and what holds after an action whose last steps are sure to run.
use cachau.Prelude.Exec.{
  Result, ok, raise, Exec, modify, pure, gets, attempt, continue, caught, ◌>>=◌,
}
use mathlib.Core.Path.{◌≡◌, refl}

pub record Total {ℓ} {E S A : Type ℓ} (m : Exec E S A) : Type ℓ where
  pub at : (s : S) → (a : A) × ((m s).0 ≡ ok a)

-- After the action the state is as `P` says.
pub record Ends {ℓ κ} {E S A : Type ℓ} (P : S → Type κ) (m : Exec E S A) : Type (ℓ ⊔ κ) where
  pub at : (s : S) → P (m s).1

module _ {ℓ} {E S : Type ℓ} where
  pub Total-modify : (f : S → S) → Total (modify {E = E} f)
  unfolding modify
  Total-modify f = record { at = λ s. (tt, refl) }

module _ {ℓ} {E S A : Type ℓ} where
  pub Total-pure : (a : A) → Total (pure {E = E} {S = S} a)
  unfolding pure
  Total-pure a = record { at = λ s. (a, refl) }

  pub Total-gets : (f : S → A) → Total (gets {E = E} f)
  unfolding gets
  Total-gets f = record { at = λ s. (f s, refl) }

module _ {ℓ} {E S A B : Type ℓ} where
  pub Total-bind :
      {m : Exec E S A} {f : A → Exec E S B} → Total m → ((a : A) → Total (f a)) → Total (m >>= f)
  unfolding ◌>>=◌
  Total-bind {m} {f} tm tf = record { at = λ s. go s (m s).0 (tm.at s).0 (tm.at s).1 }
    where
      go : (s : S) (r : Result E A) (a : A) → r ≡ ok a → (b : B) × ((continue r f (m s).1).0 ≡ ok b)
      go s (ok c) a e = (tf c).at (m s).1
      go s (raise x) a e = cc

  -- A raise of the tried action is caught.
  pub Total-attempt :
      (m : Exec E S A) {f : A → Exec E S B} {handler : Exec E S B}
      → ((a : A) → Total (f a))
      → Total handler
      → Total (attempt m f handler)
  unfolding attempt
  Total-attempt m {f} {handler} tf th = record { at = λ s. go (m s).0 (m s).1 }
    where
      go : (r : Result E A) (t : S) → (b : B) × ((caught r f handler t).0 ≡ ok b)
      go (ok a) t = (tf a).at t
      go (raise x) t = th.at t

module _ {ℓ κ} {E S A B : Type ℓ} {P : S → Type κ} where
  -- What the rest brings about, after an action that cannot stop it.
  pub Ends-after :
      {m : Exec E S A} {f : A → Exec E S B} → Total m → ((a : A) → Ends P (f a)) → Ends P (m >>= f)
  unfolding ◌>>=◌
  Ends-after {m} {f} tm tf = record { at = λ s. go s (m s).0 (tm.at s).0 (tm.at s).1 }
    where
      go : (s : S) (r : Result E A) (a : A) → r ≡ ok a → P (continue r f (m s).1).1
      go s (ok c) a e = (tf c).at (m s).1
      go s (raise x) a e = cc
