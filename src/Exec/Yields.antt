-- ===== src/Exec/Yields.antt =====
-- A condition on the value that an action returns, if it returns one, with a rule for each way to
-- build an action.
use auth_proxy.Prelude.{◌≡◌, Bool, true, false, refl, subst, if◌then◌else◌}
use auth_proxy.Errors.{Error, Result, ok, err}
use auth_proxy.Exec.{Exec, pure, throw, lift, otherwise, continue, ◌>>=◌}

pub record Yields {W A : Type 0} (Q : A → Type 0) (m : Exec W A) : Type 0 where
  pub at : (w : W) (a : A) → (m w).0 ≡ ok a → Q a

module _ {W A : Type 0} {Q : A → Type 0} where
  pub Yields-pure : (a : A) → Q a → Yields {W = W} Q (pure a)
  Yields-pure a q = record { at = λ w b h. returned b h }
    where
      returned : (b : A) → ok a ≡ ok b → Q b
      returned b h = let same : a ≡ b = cc h in subst Q same q

  pub Yields-throw : (e : Error) → Yields {W = W} Q (throw e)
  Yields-throw e = record { at = λ w b h. cc }

  pub Yields-if :
      (b : Bool) (m n : Exec W A)
      → (b ≡ true → Yields Q m)
      → (b ≡ false → Yields Q n)
      → Yields Q (if b then m else n)
  Yields-if true m n km kn = km refl
  Yields-if false m n km kn = kn refl

module _ {W A B : Type 0} {Q : B → Type 0} where
  continued :
      (r : Result A) (f : A → Exec W B)
      → ((a : A) → r ≡ ok a → Yields Q (f a))
      → (w : W) (b : B) → (continue r f w).0 ≡ ok b
      → Q b
  continued (ok a) f kf w b h = (kf a refl).at w b h
  continued (err e) f kf w b h = cc

  pub Yields-bind :
      (m : Exec W A) (f : A → Exec W B) → ((a : A) → Yields Q (f a)) → Yields Q (m >>= f)
  Yields-bind m f kf = record { at = λ w b h. continued (m w).0 f (λ a _. kf a) (m w).1 b h }

  -- A result that is at hand is known afterwards.
  pub Yields-lift :
      (r : Result A) (f : A → Exec W B)
      → ((a : A) → r ≡ ok a → Yields Q (f a))
      → Yields Q (lift r >>= f)
  Yields-lift r f kf = record { at = λ w b h. continued r f kf w b h }

  -- What an action returned in some state is known afterwards.
  pub Yields-known :
      (m : Exec W A) (f : A → Exec W B)
      → ((w : W) (a : A) → (m w).0 ≡ ok a → Yields Q (f a))
      → Yields Q (m >>= f)
  Yields-known m f kf = record { at = λ w b h. continued (m w).0 f (kf w) (m w).1 b h }

-- A condition on what the first action returns holds in the second.
pub Yields-then_with :
    {W A B : Type 0} {P : A → Type 0} {Q : B → Type 0} (m : Exec W A) (f : A → Exec W B)
    → Yields P m
    → ((a : A) → P a → Yields Q (f a))
    → Yields Q (m >>= f)
Yields-then_with m f ym yf = Yields-known m f (λ w a h. yf a (ym.at w a h))

-- If a call whose error is replaced by another returns, then the call returned.
pub otherwise-ok :
    {W A : Type 0} (r : Result A) (f : Error → Error) (w : W) (a : A)
    → (otherwise r (λ e. throw (f e)) w).0 ≡ ok a
    → r ≡ ok a
unfolding otherwise
otherwise-ok (ok b) f w a h = h
otherwise-ok (err e) f w a h = cc
