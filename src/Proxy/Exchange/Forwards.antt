-- ===== src/Proxy/Exchange/Forwards.antt =====
-- Actions that forward at most one request to netmaster, and only under a condition.
use auth_proxy.Prelude.{
  Bool, true, false, ◌≡◌, refl, ap, ◌∙◌, ◌⊎◌, inl, inr, [], ◌∷◌, ◌++◌, if◌then◌else◌,
}
use auth_proxy.Errors.{Result, ok, err}
use auth_proxy.Exec.{continue, ◌>>=◌}
use auth_proxy.Env.{Request}
use auth_proxy.Proxy.Exchange.{Exchange, Handler}
use auth_proxy.Proxy.Exchange.Unsent.{SendsNothing}

-- An action that sends nothing, or one request when `P` holds.
pub record Forwards {W A : Type 0} (r : Request) (P : Type 0) (m : Handler W A) : Type 0 where
  pub at : (x : Exchange W) → ((m x).1.sent ≡ x.sent) ⊎ (((m x).1.sent ≡ x.sent ++ r ∷ []) × P)

module _ {W A : Type 0} {r : Request} {P : Type 0} where
  pub Forwards-never : (m : Handler W A) → SendsNothing m → Forwards r P m
  Forwards-never m km = record { at = λ x. inl (km.at x) }

  pub Forwards-if :
      (b : Bool) (m n : Handler W A)
      → (b ≡ true → Forwards r P m)
      → (b ≡ false → Forwards r P n)
      → Forwards r P (if b then m else n)
  Forwards-if true m n km kn = km refl
  Forwards-if false m n km kn = kn refl

module _ {W A B : Type 0} {r : Request} {P : Type 0} where
  later :
      (x : Exchange W) (s : Result A) (y : Exchange W) (f : A → Handler W B)
      → y.sent ≡ x.sent
      → ((a : A) → s ≡ ok a → Forwards r P (f a))
      → ((continue s f y).1.sent ≡ x.sent) ⊎ (((continue s f y).1.sent ≡ x.sent ++ r ∷ []) × P)
  later x (ok a) y f eq kf = elim ((kf a refl).at y) [
    | inl h ↦ inl (h ∙ eq)
    | inr (h, p) ↦ inr (h ∙ ap (λ l. l ++ r ∷ []) eq, p)
  ]
  later x (err e) y f eq kf = inl eq

  -- An action that sends nothing goes first; what it returns in some state is known afterwards.
  pub Forwards-bind :
      (m : Handler W A) (f : A → Handler W B)
      → SendsNothing m
      → ((a : A) (x : Exchange W) → (m x).0 ≡ ok a → Forwards r P (f a))
      → Forwards r P (m >>= f)
  Forwards-bind m f km kf = record {
    at = λ x. later x (m x).0 (m x).1 f (km.at x) (λ a eq. kf a x eq);
  }

module _ {W A : Type 0} {r : Request} {P Q : Type 0} where
  pub Forwards-weaken : (m : Handler W A) → (P → Q) → Forwards r P m → Forwards r Q m
  Forwards-weaken m f km = record {
    at = λ x. elim (km.at x) [ inl h ↦ inl h | inr (h, p) ↦ inr (h, f p) ];
  }
