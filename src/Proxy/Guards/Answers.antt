-- ===== src/Proxy/Guards/Answers.antt =====
-- The guards: the statuses of the replies.
use auth_proxy.Prelude.{ℕ, ◌≡◌, ◌||◌, refl, true, false, Option, none, some, ◌==◌}
use auth_proxy.Env.{Env, Request}
use auth_proxy.Auth.Policy.{is_superuser}
use auth_proxy.Auth.Tokens.{Token, username_claim_key, get_claim}
use auth_proxy.Proxy.Exchange.{Handler, var}
use auth_proxy.Proxy.Exchange.Answers.{
  Answers, Answers-pure, Answers-if, Answers-bind, Answers-call,
}
use auth_proxy.Proxy.Responses.Answers.{is_own, process_status_codes-Answers}
use auth_proxy.Proxy.Tokens.Answers.{validate_token-Answers, is_none}
use auth_proxy.Proxy.Guards.{
  is_true, denied, admin_admitted, admin_only, user_admitted, authorized_user_only,
}

module _ (env : Env) {P : ℕ → Type 0} (own : (n : ℕ) → is_own n ≡ true → P n)
    (handler : Request → Handler env.World (Unit {0}))
    (answers : (req : Request) → Answers P false (λ _. true) (handler req)) where
  denied-Answers : Answers P false (λ _. true) (denied env)
  unfolding denied is_own
  denied-Answers = process_status_codes-Answers env 403 _ (own 403 refl)

  admin_admitted-Answers :
      (req : Request) (t : Option Token)
      → Answers P (is_none t) (λ _. true) (admin_admitted env handler req t)
  unfolding admin_admitted
  admin_admitted-Answers req none = Answers-pure (λ _. true) tt
  admin_admitted-Answers req (some t) =
      Answers-bind (λ _. false) _ _ (Answers-call false (is_superuser env t))
        (λ r. Answers-if (is_true r) _ _ (answers req) denied-Answers)

  pub admin_only-Answers :
      (req : Request) → Answers P false (λ _. true) (admin_only env handler req)
  unfolding admin_only
  admin_only-Answers req =
      Answers-bind is_none _ _ (validate_token-Answers env own req) (admin_admitted-Answers req)

  user_admitted-Answers :
      (req : Request) (t : Option Token)
      → Answers P (is_none t) (λ _. true) (user_admitted env handler req t)
  unfolding user_admitted
  user_admitted-Answers req none = Answers-pure (λ _. true) tt
  user_admitted-Answers req (some t) =
      Answers-bind (λ _. false) _ _ (Answers-call false (is_superuser env t))
        (λ r.
          Answers-if (is_true r || var req.vars "username" == get_claim t username_claim_key) _ _
            (answers req) denied-Answers)

  pub authorized_user_only-Answers :
      (req : Request) → Answers P false (λ _. true) (authorized_user_only env handler req)
  unfolding authorized_user_only
  authorized_user_only-Answers req =
      Answers-bind is_none _ _ (validate_token-Answers env own req) (user_admitted-Answers req)
