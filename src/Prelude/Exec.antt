-- ===== src/Prelude/Exec.antt =====
-- Actions that read and write a state and may raise: what was written before a raise stays written,
-- so the state comes back beside the exception too.
pub mod Keeps
pub mod Counts
pub mod Total
pub mod Yields

pub data Result {ℓ} (E A : Type ℓ) : Type ℓ where
  ok : A → Result E A
  raise : E → Result E A

abbrev pub Exec {ℓ} : Type ℓ → Type ℓ → Type ℓ → Type ℓ
Exec E S A = S → Result E A × S

unfoldable pub modify {ℓ} : {E S : Type ℓ} → (S → S) → Exec E S (Unit {ℓ})
modify f s = (ok tt, f s)

module _ {ℓ} {E S A : Type ℓ} where
  unfoldable pub pure : A → Exec E S A
  pure a s = (ok a, s)

  unfoldable pub gets : (S → A) → Exec E S A
  gets f s = (ok (f s), s)

  -- A step that does not raise.
  unfoldable pub run : (S → A × S) → Exec E S A
  run f s = let (a, s') = f s in (ok a, s')

  -- `try: m finally: cleanup`, for a cleanup that does not raise.
  unfoldable pub finally : Exec E S A → (S → S) → Exec E S A
  finally m cleanup s = let (r, s') = m s in (r, cleanup s')

module _ {ℓ} {E S A B : Type ℓ} where
  abbrev pub continue : Result E A → (A → Exec E S B) → Exec E S B
  continue (ok a) f s = f a s
  continue (raise e) f s = (raise e, s)

  -- `try: a = m except Exception: handler else: f(a)`; what `f` raises is not caught.
  abbrev pub caught : Result E A → (A → Exec E S B) → Exec E S B → Exec E S B
  caught (ok a) f handler s = f a s
  caught (raise e) f handler s = handler s

  unfoldable pub attempt : Exec E S A → (A → Exec E S B) → Exec E S B → Exec E S B
  attempt m f handler s = let (r, s') = m s in caught r f handler s'

  infixl 5 ◌>>=◌ ◌>>◌
  -- Opening this opens the other actions too.
  unfoldable pub ◌>>=◌ : Exec E S A → (A → Exec E S B) → Exec E S B
  unfolding modify pure gets run finally attempt
  ◌>>=◌ m f s = let (r, s') = m s in continue r f s'

  abbrev pub ◌>>◌ : Exec E S A → Exec E S B → Exec E S B
  m >> n = m >>= λ _. n
