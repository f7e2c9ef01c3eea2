-- ===== src/Proxy/Exchange/Settled.antt =====
-- What the result of a call that does not write the response says of the call.
use auth_proxy.Prelude.{Bool-cases, inl, inr, ◌≡◌, arith, Bool, true, ap, ◌∙◌}
use auth_proxy.Errors.{is_panic, Result, ok, err}
use auth_proxy.Exec.{Exec}
use auth_proxy.Proxy.Exchange.{Exchange, settle, call}
use auth_proxy.Proxy.Guards.{is_true}

module _ {A : Type 0} where
  settle-ok : (r : Result A) (a : A) → settle r ≡ ok (ok a) → r ≡ ok a
  settle-ok (ok b) a h = cc
  settle-ok (err e) a h = ground arith

  settled : (s r : Result A) → settle s ≡ ok r → s ≡ r
  settled (ok a) r h = cc
  settled (err e) r h = elim (Bool-cases (is_panic e)) [
    | inl panics ↦ cc (rw panics at h)
    | inr returns ↦ cc (rw returns at h)
  ]

  pub call-result :
      {W : Type 0} (m : Exec W A) (x : Exchange W) (r : Result A)
      → (call m x).0 ≡ ok r
      → (m x.world).0 ≡ r
  unfolding call
  call-result m x r h = settled _ r h

  pub call-ok :
      {W : Type 0} (m : Exec W A) (x : Exchange W) (a : A)
      → (call m x).0 ≡ ok (ok a)
      → (m x.world).0 ≡ ok a
  unfolding call
  call-ok m x a h = settle-ok _ a h

is_true-ok : (b : Result Bool) → is_true b ≡ true → b ≡ ok true
is_true-ok (ok b) h = ap ok h
is_true-ok (err e) h = cc

pub call-is_true :
    {W : Type 0} (m : Exec W Bool) (x : Exchange W) (b : Result Bool)
    → (call m x).0 ≡ ok b
    → is_true b ≡ true
    → (m x.world).0 ≡ ok true
call-is_true m x b h t = call-ok m x true (h ∙ ap ok (is_true-ok b t))
