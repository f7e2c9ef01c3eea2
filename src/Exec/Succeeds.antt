-- ===== src/Exec/Succeeds.antt =====
-- What is known of the parts of an action that returns a value, with the worlds between them.
use auth_proxy.Prelude.{◌≡◌, ◌∙◌, ap, refl}
use auth_proxy.Errors.{Error, Result, ok, err}
use auth_proxy.Exec.{Exec, throw, attempt, otherwise, continue, ◌>>=◌}

module _ {W A B : Type 0} where
  continue-ok :
      (r : Result A) (f : A → Exec W B) (w : W) (b : B) (w' : W)
      → continue r f w ≡ (ok b, w')
      → (a : A) × (r ≡ ok a) × (f a w ≡ (ok b, w'))
  continue-ok (ok a) f w b w' h = (a, refl, h)
  continue-ok (err e) f w b w' h = cc

  pub >>=-ok :
      (m : Exec W A) (f : A → Exec W B) (w : W) (b : B) (w' : W)
      → (m >>= f) w ≡ (ok b, w')
      → (a : A) × (w1 : W) × (m w ≡ (ok a, w1)) × (f a w1 ≡ (ok b, w'))
  >>=-ok m f w b w' h =
      let (a, got, rest) = continue-ok (m w).0 f (m w).1 b w' h in
      (a, (m w).1, ap (λ r. (r, (m w).1)) got, rest)

module _ {W A : Type 0} where
  otherwise-ok :
      (r : Result A) (f : Error → Error) (w : W) (a : A) (w' : W)
      → otherwise r (λ e. throw (f e)) w ≡ (ok a, w')
      → (r ≡ ok a) × (w ≡ w')
  unfolding otherwise
  otherwise-ok (ok b) f w a w' h = (ap (λ r. r.0) h, ap (λ r. r.1) h)
  otherwise-ok (err e) f w a w' h = cc

  -- A call whose error is replaced by another.
  pub attempt-otherwise :
      (m : Exec W A) (f : Error → Error) (w : W) (a : A) (w' : W)
      → (attempt m >>= λ r. otherwise r (λ e. throw (f e))) w ≡ (ok a, w')
      → m w ≡ (ok a, w')
  attempt-otherwise m f w a w' h =
      let (got, same) = otherwise-ok (m w).0 f (m w).1 a w' h in
      ap (λ r. (r, (m w).1)) got ∙ ap (λ v. (ok a, v)) same
