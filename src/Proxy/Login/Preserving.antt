-- ===== src/Proxy/Login/Preserving.antt =====
-- The login handler, and the entry of the built-in administrator.
use auth_proxy.Prelude.{◌||◌, String, List}
use auth_proxy.Errors.{Result, ok, err}
use auth_proxy.Exec.{Exec}
use auth_proxy.Exec.Preserves.{Preserves, Preserves-if, Preserves-bind, Preserves-then}
use auth_proxy.Text.{is_empty}
use auth_proxy.Messages.{LoginReq}
use auth_proxy.Env.{Env, Request}
use auth_proxy.Env.Sparing.{Sparing}
use auth_proxy.Auth.Login.Preserving.{authenticate-Preserves}
use auth_proxy.Proxy.Exchange.Preserving.{NoSlash, Spares, Spares-call, Spares-emit}
use auth_proxy.Proxy.Responses.Preserving.{headers-Spares, auth_error-Spares, server_error-Spares}
use auth_proxy.Proxy.Login.{authenticated, login, unmarshaled, body_read, login_handler}

module _ (env : Env) {I : env.World → Type 0} (s : Sparing env I)
    (ldap_authenticate : String → String → Exec env.World (String × List String))
    (spares : (name password : String) → Preserves I (ldap_authenticate name password)) where
  login-Spares : (req : LoginReq) → Spares I (login env ldap_authenticate req)
  unfolding login authenticated
  login-Spares req =
      Preserves-if (is_empty req.username || is_empty req.password) (auth_error-Spares env I 400 _)
        (Preserves-bind
          (Spares-call I
            (authenticate-Preserves env s ldap_authenticate spares req.username req.password))
          after)
    where
      after : (r : Result String) → Spares I (authenticated env ldap_authenticate r)
      after (ok token) = Preserves-then (Spares-emit I _) (Spares-emit I _)
      after (err e) = auth_error-Spares env I 401 _

  body_read-Spares : (r : Result String) → Spares I (body_read env ldap_authenticate r)
  unfolding body_read unmarshaled
  body_read-Spares (ok body) = after (env.login_req_json.unmarshal body)
    where
      after : (r : Result LoginReq) → Spares I (unmarshaled env ldap_authenticate r)
      after (ok req) = login-Spares req
      after (err e) = server_error-Spares env I _
  body_read-Spares (err e) = server_error-Spares env I _

  pub login_handler-Spares :
      (req : Request) → NoSlash req → Spares I (login_handler env ldap_authenticate req)
  unfolding login_handler
  login_handler-Spares req free = Preserves-then (headers-Spares I) (body_read-Spares req.body)
