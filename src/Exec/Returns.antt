-- ===== src/Exec/Returns.antt =====
-- Actions that return a value in every state, and a condition on it, one rule for each way to build
-- an action.
use auth_proxy.Prelude.{◌≡◌, refl, Bool, true, false, if◌then◌else◌}
use auth_proxy.Errors.{Result, ok, err}
use auth_proxy.Exec.{Exec, pure, attempt, continue, ◌>>=◌}

pub record Returns {W A : Type 0} (Q : A → Type 0) (m : Exec W A) : Type 0 where
  pub at : (w : W) → (a : A) × ((m w).0 ≡ ok a) × Q a

abbrev pub Anything : {A : Type 0} → A → Type 0
Anything a = Unit {0}

module _ {W A : Type 0} {Q : A → Type 0} where
  pub Returns-pure : (a : A) → Q a → Returns {W = W} Q (pure a)
  Returns-pure a q = record { at = λ w. (a, refl, q) }

  pub Returns-if :
      (b : Bool) (m n : Exec W A) → Returns Q m → Returns Q n → Returns Q (if b then m else n)
  Returns-if true m n km kn = km
  Returns-if false m n km kn = kn

module _ {W A B : Type 0} {Q : A → Type 0} {S : B → Type 0} where
  continued :
      (r : Result A) (f : A → Exec W B)
      → ((a : A) → Q a → Returns S (f a))
      → (a : A) × (r ≡ ok a) × Q a
      → (w : W) → (b : B) × ((continue r f w).0 ≡ ok b) × S b
  continued (ok a) f kf (b, e, q) w = let same : b ≡ a = cc e in (kf a (rw same at q)).at w
  continued (err e) f kf (a, h, q) w = cc h

  pub Returns-bind :
      (m : Exec W A) (f : A → Exec W B)
      → Returns Q m
      → ((a : A) → Q a → Returns S (f a))
      → Returns S (m >>= f)
  Returns-bind m f km kf = record { at = λ w. continued (m w).0 f kf (km.at w) (m w).1 }

module _ {W A B : Type 0} {S : B → Type 0} where
  -- A call whose error is looked at.
  pub Returns-attempt :
      (m : Exec W A) (f : Result A → Exec W B)
      → ((r : Result A) → Returns S (f r))
      → Returns S (attempt m >>= f)
  Returns-attempt m f kf = record { at = λ w. (kf (m w).0).at (m w).1 }

  -- A call whose result is turned into a value.
  pub Returns-mapped :
      (m : Exec W A) (f : Result A → B)
      → ((r : Result A) → S (f r))
      → Returns S (attempt m >>= λ r. pure (f r))
  Returns-mapped m f kf = Returns-attempt m (λ r. pure (f r)) (λ r. Returns-pure (f r) (kf r))
