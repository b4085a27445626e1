-- ===== src/Prelude/Exec/Counts.antt =====
-- Actions that count one event: a number that grows by one, or stays, according to the result.
use Prim.Native.Nat.{ℕ, ◌+◌, ◌≤◌}
use cachau.Prelude.Exec.Keeps.{Keeps, IsPreorder}
use cachau.Prelude.Exec.{Result, ok, raise, Exec, modify, finally, continue, ◌>>=◌}
use cachau.Prelude.Tests.{if◌then◌else◌}
use mathlib.Core.Bool.{Bool, true, false}
use mathlib.Core.Path.{◌≡◌, refl, ◌∙◌}
use native.Mathlib.Omega.{arith}

-- The number is the same after as before.
abbrev pub Same {ℓ} : {S : Type ℓ} → (S → ℕ) → S → S → Type 0
Same f s t = f t ≡ f s

pub Same-order {ℓ} : {S : Type ℓ} (f : S → ℕ) → IsPreorder (Same f)
Same-order f = record { here = λ s. refl; after = λ p q. q ∙ p }

module _ {E S A : Type 0} where
  -- After a result the number has grown by one where `done` says so; a raise may come before or
  -- after the event.
  abbrev pub Counted : (S → ℕ) → (A → Bool) → S → Result E A → S → Type 0
  Counted f done s (ok a) t = f t ≡ f s + (if done a then 1 else 0)
  Counted f done s (raise e) t = (f s ≤ f t) × (f t ≤ f s + 1)

  pub record Counts (f : S → ℕ) (done : A → Bool) (m : Exec E S A) : Type 0 where
    pub at : (s : S) → Counted f done s (m s).0 (m s).1

abbrev pub once : {A : Type 0} → A → Bool
once a = true

-- What has to follow: nothing that counts where the event has happened, else the event.
pub data Follows {E S A : Type 0} (f : S → ℕ) (k : Exec E S A) : Bool → Type 0 where
  quiet : Keeps (Same f) k → Follows f k true
  counting : Counts f once k → Follows f k false

module _ {E S : Type 0} (f : S → ℕ) where
  pub Counts-modify : (g : S → S) → ((s : S) → f (g s) ≡ f s + 1) → Counts f once (modify {E = E} g)
  unfolding modify
  Counts-modify g h = record { at = h }

module _ {E S A : Type 0} {f : S → ℕ} where
  pub Counts-if :
      {done : A → Bool} (b : Bool) {m n : Exec E S A}
      → Counts f done m
      → Counts f done n
      → Counts f done (if b then m else n)
  Counts-if true cm cn = cm
  Counts-if false cm cn = cn

  pub Counts-finally :
      {done : A → Bool} {m : Exec E S A} (g : S → S)
      → Counts f done m
      → ((s : S) → f (g s) ≡ f s)
      → Counts f done (finally m g)
  unfolding finally
  Counts-finally {done} {m} g cm h = record { at = λ s. cleaned s (m s).0 (m s).1 (cm.at s) }
    where
      cleaned : (s : S) (r : Result E A) (t : S) → Counted f done s r t → Counted f done s r (g t)
      cleaned s (ok a) t c = h t ∙ c
      cleaned s (raise e) t c = omega (arith, h t)

module _ {E S A B : Type 0} {f : S → ℕ} where
  -- The first action does not count.
  pub Counts-after :
      {p : B → Bool} {m : Exec E S A} {k : A → Exec E S B}
      → Keeps (Same f) m
      → ((a : A) → Counts f p (k a))
      → Counts f p (m >>= k)
  unfolding ◌>>=◌
  Counts-after {p} {m} {k} km ck = record { at = λ s. rest s (m s).0 (m s).1 (km.at s) }
    where
      moved : (s t : S) (r : Result E B) (u : S) → f t ≡ f s → Counted f p t r u → Counted f p s r u
      moved s t (ok b) u h c = omega (arith, h, c)
      moved s t (raise e) u h c = omega (arith, h, c)

      rest :
          (s : S) (r : Result E A) (t : S)
          → f t ≡ f s
          → Counted f p s (continue r k t).0 (continue r k t).1
      rest s (ok a) t h = moved s t (k a t).0 (k a t).1 h ((ck a).at t)
      rest s (raise e) t h = omega (arith, h)

  -- The event happens in the first action, or else in what follows.
  pub Counts-bind :
      {done : A → Bool} {m : Exec E S A} {k : A → Exec E S B}
      → Counts f done m
      → ((a : A) → Follows f (k a) (done a))
      → Counts f once (m >>= k)
  unfolding ◌>>=◌
  Counts-bind {done} {m} {k} cm ck = record { at = λ s. rest s (m s).0 (m s).1 (cm.at s) }
    where
      counted :
          (s t : S) (r : Result E B) (u : S) → f t ≡ f s + 1 → f u ≡ f t → Counted f once s r u
      counted s t (ok b) u h c = omega (arith, h, c)
      counted s t (raise e) u h c = omega (arith, h, c)

      later :
          (s t : S) (r : Result E B) (u : S)
          → f t ≡ f s + 0
          → Counted f once t r u
          → Counted f once s r u
      later s t (ok b) u h c = omega (arith, h, c)
      later s t (raise e) u h c = omega (arith, h, c)

      go :
          (s t : S) (g : Exec E S B) {b : Bool}
          → Follows f g b
          → f t ≡ f s + (if b then 1 else 0)
          → Counted f once s (g t).0 (g t).1
      go s t g (quiet kg) h = counted s t (g t).0 (g t).1 h (kg.at t)
      go s t g (counting cg) h = later s t (g t).0 (g t).1 h (cg.at t)

      rest :
          (s : S) (r : Result E A) (t : S)
          → Counted f done s r t
          → Counted f once s (continue r k t).0 (continue r k t).1
      rest s (ok a) t h = go s t (k a) (ck a) h
      rest s (raise e) t h = h
