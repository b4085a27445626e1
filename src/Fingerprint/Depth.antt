-- ===== src/Fingerprint/Depth.antt =====
-- src/cachau/fingerprint.py: steps of `_fingerprint` that do not recurse deeper than the unseen functions
-- allow.
use cachau.Fingerprint.Functions.{Failure, out_of_fuel, fail}
use cachau.Fingerprint.Objects.{Heap, has}
use cachau.Fingerprint.Unseen.{unseen, unseen-le}
use cachau.Prelude.Exec.{Result, ok, raise, modify, pure, continue, ◌>>=◌, Exec}
use cachau.Prelude.{ℕ, ◌≤◌, List, ◌∷◌, ◌≡◌, ◌≢◌, true, some, arith, All}

-- What a set of objects refers to is in it.
pub record IsClosed (universe : List ℕ) (heap : Heap) : Type 0 where
  pub cells :
      (i : ℕ)
      → has universe i ≡ true
      → All (λ c. (j : ℕ) → c ≡ some j → has universe j ≡ true) (heap i).closure
  pub defaults :
      (i : ℕ) → has universe i ≡ true → All (λ j. has universe j ≡ true) (heap i).defaults
  pub kwdefaults :
      (i : ℕ) → has universe i ≡ true → All (λ p. has universe p.1 ≡ true) (heap i).kwdefaults
  pub py_func :
      (i j : ℕ) → has universe i ≡ true → (heap i).py_func ≡ some j → has universe j ≡ true

-- From states with at most so many unseen members the step does not run out, and leaves no more.
pub record Within {A : Type 0} (universe : List ℕ) (n : ℕ) (m : Exec Failure (List ℕ) A)
    : Type 0 where
  pub at :
      (seen : List ℕ)
      → unseen universe seen ≤ n
      → ((m seen).0 ≢ raise out_of_fuel) × (unseen universe (m seen).1 ≤ n)

module _ (universe : List ℕ) (n : ℕ) where
  pub Within-pure : {A : Type 0} (a : A) → Within universe n (pure a)
  unfolding pure
  Within-pure a = record { at = λ seen h. ((λ e. cc), h) }

  pub Within-fail : (e : Failure) → e ≢ out_of_fuel → Within universe n (fail e)
  Within-fail e d = record { at = λ seen h. ((λ p. d (cc)), h) }

  pub Within-mark : (x : ℕ) → Within universe n (modify (λ seen. x ∷ seen))
  unfolding modify
  Within-mark x = record { at = λ seen h. ((λ e. cc), omega (arith, h, unseen-le universe seen x)) }

  pub Within-bind :
      {A B : Type 0} {m : Exec Failure (List ℕ) A} {f : A → Exec Failure (List ℕ) B}
      → Within universe n m
      → ((a : A) → Within universe n (f a))
      → Within universe n (m >>= f)
  unfolding ◌>>=◌
  Within-bind {A} {B} {m} {f} wm wf = record {
    at = λ seen h. let (g, t) = wm.at seen h in go (m seen).0 (m seen).1 g t;
  }
    where
      go :
          (r : Result Failure A) (t : List ℕ)
          → r ≢ raise out_of_fuel
          → unseen universe t ≤ n
          → ((continue r f t).0 ≢ raise out_of_fuel) × (unseen universe (continue r f t).1 ≤ n)
      go (ok a) t g h = (wf a).at t h
      go (raise e) t g h = ((λ p. g cc), h)
