-- ===== src/Exec/Preserves.antt =====
-- Actions that keep an invariant of the world, one rule for each way to build an action.
use auth_proxy.Prelude.{Bool, true, false, if◌then◌else◌}
use auth_proxy.Errors.{Error, Result, ok, err}
use auth_proxy.Exec.{Exec, pure, throw, lift, attempt, always, otherwise, continue, ◌>>=◌, ◌>>◌}

pub record Preserves {W A : Type 0} (I : W → Type 0) (m : Exec W A) : Type 0 where
  pub at : (w : W) → I w → I (m w).1

module _ {W A : Type 0} {I : W → Type 0} where
  pub Preserves-pure : (a : A) → Preserves I (pure a)
  Preserves-pure a = record { at = λ w h. h }

  pub Preserves-throw : (e : Error) → Preserves {A = A} I (throw e)
  Preserves-throw e = record { at = λ w h. h }

  pub Preserves-lift : (r : Result A) → Preserves I (lift r)
  Preserves-lift r = record { at = λ w h. h }

  pub Preserves-attempt : {m : Exec W A} → Preserves I m → Preserves I (attempt m)
  Preserves-attempt km = record { at = λ w h. km.at w h }

  pub Preserves-always : (f : W → A × W) → ((w : W) → I w → I (f w).1) → Preserves I (always f)
  Preserves-always f kf = record { at = λ w h. kf w h }

  pub Preserves-if :
      (b : Bool) {m n : Exec W A} → Preserves I m → Preserves I n → Preserves I (if b then m else n)
  Preserves-if true km kn = km
  Preserves-if false km kn = kn

  pub Preserves-otherwise :
      (r : Result A) {next : Error → Exec W A}
      → ((e : Error) → Preserves I (next e))
      → Preserves I (otherwise r next)
  unfolding otherwise
  Preserves-otherwise (ok a) kn = Preserves-pure a
  Preserves-otherwise (err e) kn = kn e

module _ {W A B : Type 0} {I : W → Type 0} where
  continued :
      (r : Result A) (f : A → Exec W B)
      → ((a : A) → Preserves I (f a))
      → (w : W) → I w
      → I (continue r f w).1
  continued (ok a) f kf w h = (kf a).at w h
  continued (err e) f kf w h = h

  pub Preserves-bind :
      {m : Exec W A} {f : A → Exec W B}
      → Preserves I m
      → ((a : A) → Preserves I (f a))
      → Preserves I (m >>= f)
  Preserves-bind {m} {f} km kf = record { at = λ w h. continued (m w).0 f kf (m w).1 (km.at w h) }

  pub Preserves-then :
      {m : Exec W A} {n : Exec W B} → Preserves I m → Preserves I n → Preserves I (m >> n)
  Preserves-then km kn = Preserves-bind km (λ _. kn)
