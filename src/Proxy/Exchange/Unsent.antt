-- ===== src/Proxy/Exchange/Unsent.antt =====
-- Actions that forward nothing to netmaster, one rule for each way to build an action.
use auth_proxy.Prelude.{◌≡◌, refl, ◌∙◌, Bool, true, false, if◌then◌else◌}
use auth_proxy.Errors.{Error, Result, ok, err}
use auth_proxy.Exec.{Exec, pure, throw, continue, ◌>>=◌, ◌>>◌}
use auth_proxy.Proxy.Exchange.{Exchange, Handler, Write, emit, call}

pub record SendsNothing {W A : Type 0} (m : Handler W A) : Type 0 where
  pub at : (x : Exchange W) → (m x).1.sent ≡ x.sent

module _ {W A : Type 0} where
  pub SendsNothing-pure : (a : A) → SendsNothing {W = W} (pure a)
  SendsNothing-pure a = record { at = λ x. refl }

  pub SendsNothing-throw : (e : Error) → SendsNothing {W = W} {A = A} (throw e)
  SendsNothing-throw e = record { at = λ x. refl }

  pub SendsNothing-call : (m : Exec W A) → SendsNothing (call m)
  unfolding call
  SendsNothing-call m = record { at = λ x. refl }

  pub SendsNothing-if :
      (b : Bool) (m n : Handler W A)
      → SendsNothing m
      → SendsNothing n
      → SendsNothing (if b then m else n)
  SendsNothing-if true m n km kn = km
  SendsNothing-if false m n km kn = kn

module _ {W : Type 0} where
  pub SendsNothing-emit : (a : Write) → SendsNothing {W = W} (emit a)
  unfolding emit
  SendsNothing-emit a = record { at = λ x. refl }

module _ {W A B : Type 0} where
  continued :
      (r : Result A) (f : A → Handler W B)
      → ((a : A) → SendsNothing (f a))
      → (x : Exchange W) → (continue r f x).1.sent ≡ x.sent
  continued (ok a) f kf x = (kf a).at x
  continued (err e) f kf x = refl

  pub SendsNothing-bind :
      (m : Handler W A) (f : A → Handler W B)
      → SendsNothing m
      → ((a : A) → SendsNothing (f a))
      → SendsNothing (m >>= f)
  SendsNothing-bind m f km kf = record { at = λ x. continued (m x).0 f kf (m x).1 ∙ km.at x }

  pub SendsNothing-then :
      (m : Handler W A) (n : Handler W B) → SendsNothing m → SendsNothing n → SendsNothing (m >> n)
  SendsNothing-then m n km kn = SendsNothing-bind m (λ _. n) km (λ _. kn)

pub ruleset unsent = (
  SendsNothing-pure, SendsNothing-throw, SendsNothing-call, SendsNothing-if, SendsNothing-emit,
  SendsNothing-bind, SendsNothing-then,
)
