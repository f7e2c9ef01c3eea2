-- ===== src/Exec/Keeps.antt =====
-- Actions that leave what is observed of the world as it is, one rule for each way to build an action.
use auth_proxy.Prelude.{◌≡◌, refl, ◌∙◌, Bool, true, false, if◌then◌else◌}
use auth_proxy.Errors.{Error, Result, ok, err}
use auth_proxy.Exec.{Exec, pure, throw, attempt, otherwise, continue, ◌>>=◌, ◌>>◌}

pub record Keeps {W V A : Type 0} (see : W → V) (m : Exec W A) : Type 0 where
  pub at : (w : W) → see (m w).1 ≡ see w

module _ {W V A : Type 0} (see : W → V) where
  pub Keeps-pure : (a : A) → Keeps see (pure a)
  Keeps-pure a = record { at = λ w. refl }

  pub Keeps-throw : (e : Error) → Keeps {A = A} see (throw e)
  Keeps-throw e = record { at = λ w. refl }

  pub Keeps-attempt : (m : Exec W A) → Keeps see m → Keeps see (attempt m)
  Keeps-attempt m km = record { at = λ w. km.at w }

  pub Keeps-if :
      (b : Bool) (m n : Exec W A) → Keeps see m → Keeps see n → Keeps see (if b then m else n)
  Keeps-if true m n km kn = km
  Keeps-if false m n km kn = kn

module _ {W V A : Type 0} (see : W → V) where
  pub Keeps-otherwise :
      (r : Result A) (next : Error → Exec W A)
      → ((e : Error) → Keeps see (next e))
      → Keeps see (otherwise r next)
  unfolding otherwise
  Keeps-otherwise (ok a) next kn = Keeps-pure see a
  Keeps-otherwise (err e) next kn = kn e

module _ {W V A B : Type 0} (see : W → V) where
  continued :
      (r : Result A) (f : A → Exec W B)
      → ((a : A) → Keeps see (f a))
      → (w : W) → see (continue r f w).1 ≡ see w
  continued (ok a) f kf w = (kf a).at w
  continued (err e) f kf w = refl

  pub Keeps-bind :
      (m : Exec W A) (f : A → Exec W B)
      → Keeps see m
      → ((a : A) → Keeps see (f a))
      → Keeps see (m >>= f)
  Keeps-bind m f km kf = record { at = λ w. continued (m w).0 f kf (m w).1 ∙ km.at w }

  pub Keeps-then : (m : Exec W A) (n : Exec W B) → Keeps see m → Keeps see n → Keeps see (m >> n)
  Keeps-then m n km kn = Keeps-bind m (λ _. n) km (λ _. kn)

-- A call, and what follows its error.
pub Keeps-retry :
    {W V A : Type 0} (see : W → V) (m : Exec W A) (next : Error → Exec W A)
    → Keeps see m
    → ((e : Error) → Keeps see (next e))
    → Keeps see (attempt m >>= λ r. otherwise r next)
Keeps-retry see m next km kn =
    Keeps-bind see (attempt m) (λ r. otherwise r next) (Keeps-attempt see m km)
      (λ r. Keeps-otherwise see r next kn)

pub ruleset keeping =
    (Keeps-pure, Keeps-throw, Keeps-attempt, Keeps-if, Keeps-bind, Keeps-then, Keeps-otherwise)
