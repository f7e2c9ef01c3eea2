-- ===== src/Proxy/Guards/Preserving.antt =====
-- A guard, and the entry of the built-in administrator.
use auth_proxy.Prelude.{◌||◌, ◌==◌, Option, none, some}
use auth_proxy.Exec.Preserves.{Preserves-pure, Preserves-if, Preserves-bind}
use auth_proxy.Env.{Env, Request}
use auth_proxy.Env.Sparing.{Sparing}
use auth_proxy.Auth.Policy.Preserving.{is_superuser-Preserves}
use auth_proxy.Auth.Tokens.{Token, username_claim_key, get_claim}
use auth_proxy.Proxy.Exchange.{Handler, var}
use auth_proxy.Proxy.Exchange.Preserving.{NoSlash, Spares, Spares-call}
use auth_proxy.Proxy.Responses.Preserving.{process_status_codes-Spares}
use auth_proxy.Proxy.Tokens.Preserving.{validate_token-Spares}
use auth_proxy.Proxy.Guards.{
  is_true, denied, admin_admitted, admin_only, user_admitted, authorized_user_only,
}

module _ (env : Env) {I : env.World → Type 0} (s : Sparing env I)
    (handler : Request → Handler env.World (Unit {0}))
    (spares : (req : Request) → NoSlash req → Spares I (handler req)) where
  denied-Spares : Spares I (denied env)
  unfolding denied
  denied-Spares = process_status_codes-Spares env I 403 _

  admin_admitted-Spares :
      (req : Request) (t : Option Token) → NoSlash req → Spares I (admin_admitted env handler req t)
  unfolding admin_admitted
  admin_admitted-Spares req none free = Preserves-pure tt
  admin_admitted-Spares req (some t) free =
      Preserves-bind (Spares-call I (is_superuser-Preserves env s t))
        (λ r. Preserves-if (is_true r) (spares req free) denied-Spares)

  pub admin_only-Spares : (req : Request) → NoSlash req → Spares I (admin_only env handler req)
  unfolding admin_only
  admin_only-Spares req free =
      Preserves-bind (validate_token-Spares env s req) (λ t. admin_admitted-Spares req t free)

  user_admitted-Spares :
      (req : Request) (t : Option Token) → NoSlash req → Spares I (user_admitted env handler req t)
  unfolding user_admitted
  user_admitted-Spares req none free = Preserves-pure tt
  user_admitted-Spares req (some t) free =
      Preserves-bind (Spares-call I (is_superuser-Preserves env s t)) (λ r.
        Preserves-if (is_true r || var req.vars "username" == get_claim t username_claim_key)
          (spares req free) denied-Spares)

  pub authorized_user_only-Spares :
      (req : Request) → NoSlash req → Spares I (authorized_user_only env handler req)
  unfolding authorized_user_only
  authorized_user_only-Spares req free =
      Preserves-bind (validate_token-Spares env s req) (λ t. user_admitted-Spares req t free)
