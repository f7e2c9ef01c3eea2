-- ===== src/Exec.antt =====
-- Functions that read and change the world and return `(value, error)`. What was done before an
-- error stays done, so the world comes back beside the error too.
pub mod Yields
pub mod Succeeds
pub mod Keeps
pub mod Returns
pub mod Preserves
use auth_proxy.Errors.{Error, Result, ok, err}

abbrev pub Exec {ℓ} : Type ℓ → Type ℓ → Type ℓ
Exec W A = W → Result A × W

module _ {ℓ} {W A : Type ℓ} where
  abbrev pub pure : A → Exec W A
  pure a w = (ok a, w)

  abbrev pub throw : Error → Exec W A
  throw e w = (err e, w)

  abbrev pub lift : Result A → Exec W A
  lift r w = (r, w)

  -- The result of a call whose error the caller inspects.
  abbrev pub attempt : Exec W A → Exec W (Result A)
  attempt m w = let (r, w') = m w in (ok r, w')

  -- A call with no error.
  abbrev pub always : (W → A × W) → Exec W A
  always f w = let (a, w') = f w in (ok a, w')

  -- What a call returned, or what follows its error.
  unfoldable pub otherwise : Result A → (Error → Exec W A) → Exec W A
  otherwise (ok a) next = pure a
  otherwise (err e) next = next e

module _ {ℓ} {W A B : Type ℓ} where
  abbrev pub continue : Result A → (A → Exec W B) → Exec W B
  continue (ok a) f w = f a w
  continue (err e) f w = (err e, w)

  infixl 10 ◌>>=◌ ◌>>◌
  abbrev pub ◌>>=◌ : Exec W A → (A → Exec W B) → Exec W B
  ◌>>=◌ m f w = let (r, w') = m w in continue r f w'

  abbrev pub ◌>>◌ : Exec W A → Exec W B → Exec W B
  m >> n = m >>= λ _. n
