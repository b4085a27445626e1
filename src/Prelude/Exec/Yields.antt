-- ===== src/Prelude/Exec/Yields.antt =====
-- What is known of the value that an action returns, whenever it returns.
use cachau.Prelude.Exec.{Result, ok, raise, Exec, pure, continue, ◌>>=◌}
use mathlib.Core.Path.{subst}
use cachau.Prelude.{◌≡◌, refl, ap}

-- Where a value came out, it is as `P` says.
abbrev pub Holds {ℓ} : {E A : Type ℓ} → (A → Type ℓ) → Result E A → Type ℓ
Holds P (ok a) = P a
Holds P (raise e) = Unit

-- From what is known of each value that may have come out.
pub holds_if {ℓ} :
    {E A : Type ℓ} {P : A → Type ℓ} (r : Result E A) → ((a : A) → r ≡ ok a → P a) → Holds P r
holds_if (ok a) h = h a refl
holds_if (raise e) h = tt

pub record Yields {ℓ} {E S A : Type ℓ} (P : A → Type ℓ) (m : Exec E S A) : Type ℓ where
  pub at : (s : S) → Holds P (m s).0

-- The value of an action that returned.
pub yields_ok {ℓ} :
    {E S A : Type ℓ} {P : A → Type ℓ} {m : Exec E S A} (s : S) (a : A)
    → Yields P m
    → (m s).0 ≡ ok a
    → P a
yields_ok {P = P} {m} s a y e = subst (Holds P) e (y.at s)

module _ {ℓ} {E S A : Type ℓ} {P : A → Type ℓ} where
  pub Yields-pure : (a : A) → P a → Yields P (pure {E = E} {S = S} a)
  unfolding pure
  Yields-pure a p = record { at = λ s. p }

module _ {ℓ} {E S A B : Type ℓ} {P : A → Type ℓ} {Q : B → Type ℓ} where
  pub Yields-bind :
      {m : Exec E S A} {f : A → Exec E S B}
      → Yields P m
      → ((a : A) → P a → Yields Q (f a))
      → Yields Q (m >>= f)
  unfolding ◌>>=◌
  Yields-bind {m} {f} ym yf = record { at = λ s. go (m s).0 (m s).1 (ym.at s) }
    where
      go : (r : Result E A) (t : S) → Holds P r → Holds Q (continue r f t).0
      go (ok a) t h = (yf a h).at t
      go (raise x) t h = tt

-- Of any action, something is known that holds of every value.
pub anything {ℓ} : {E S A : Type ℓ} (m : Exec E S A) → Yields (λ _. Unit) m
anything {E = E} {A = A} m = record { at = λ s. known (m s).0 }
  where
    known : (r : Result E A) → Holds (λ _. Unit) r
    known (ok a) = tt
    known (raise e) = tt

-- An action that returned hands its value on.
pub bind_ok {ℓ} :
    {E S A B : Type ℓ} (m : Exec E S A) (f : A → Exec E S B) (s : S) (a : A)
    → (m s).0 ≡ ok a
    → (m >>= f) s ≡ f a (m s).1
unfolding ◌>>=◌
bind_ok m f s a e = ap (λ r. continue r f (m s).1) e
