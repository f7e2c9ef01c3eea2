-- ===== src/Proxy/Guards/Redacted.antt =====
-- What the guards of proxy/handlers.go write besides what their handlers write.
use auth_proxy.Prelude.{refl, ◌||◌, ◌==◌, Option, none, some}
use auth_proxy.Exec.Preserves.{Preserves-pure, Preserves-if, Preserves-bind}
use auth_proxy.Env.{Env, Request}
use auth_proxy.Auth.Policy.{is_superuser}
use auth_proxy.Auth.Tokens.{Token, username_claim_key, get_claim}
use auth_proxy.Proxy.Exchange.{Handler, var}
use auth_proxy.Proxy.Exchange.Writes.{Writes, Writes-call}
use auth_proxy.Proxy.Responses.Redacted.{
  is_message, Redacted, BlankReply-stated, process_status_codes-Redacted,
}
use auth_proxy.Proxy.Tokens.Redacted.{validate_token-Redacted}
use auth_proxy.Proxy.Guards.{
  is_true, denied, admin_admitted, admin_only, user_admitted, authorized_user_only,
}

module _ (env : Env) (handler : Request → Handler env.World (Unit {0}))
    (redacted : (req : Request) → Writes (Redacted env req) (handler req)) where
  denied-Redacted : (req : Request) → Writes (Redacted env req) (denied env)
  unfolding denied is_message
  denied-Redacted req =
      process_status_codes-Redacted env req 403 _ (BlankReply-stated env req _ _ refl refl)

  admin_admitted-Redacted :
      (req : Request) (t : Option Token)
      → Writes (Redacted env req) (admin_admitted env handler req t)
  unfolding admin_admitted
  admin_admitted-Redacted req none = Preserves-pure tt
  admin_admitted-Redacted req (some t) =
      Preserves-bind (Writes-call (Redacted env req) (is_superuser env t))
        (λ r. Preserves-if (is_true r) (redacted req) (denied-Redacted req))

  pub admin_only-Redacted : (req : Request) → Writes (Redacted env req) (admin_only env handler req)
  unfolding admin_only
  admin_only-Redacted req =
      Preserves-bind (validate_token-Redacted env req) (λ t. admin_admitted-Redacted req t)

  user_admitted-Redacted :
      (req : Request) (t : Option Token)
      → Writes (Redacted env req) (user_admitted env handler req t)
  unfolding user_admitted
  user_admitted-Redacted req none = Preserves-pure tt
  user_admitted-Redacted req (some t) =
      Preserves-bind (Writes-call (Redacted env req) (is_superuser env t)) (λ r.
        Preserves-if (is_true r || var req.vars "username" == get_claim t username_claim_key)
          (redacted req) (denied-Redacted req))

  pub authorized_user_only-Redacted :
      (req : Request) → Writes (Redacted env req) (authorized_user_only env handler req)
  unfolding authorized_user_only
  authorized_user_only-Redacted req =
      Preserves-bind (validate_token-Redacted env req) (λ t. user_admitted-Redacted req t)
