-- ===== src/Proxy/Routes/Redacted.antt =====
-- What the routes for users and for the LDAP configuration write.
use mathlib.Core.List.{Memᴰ}
use auth_proxy.Prelude.{◌≡◌, ◌⊎◌, inl, inr, String, List, Option, some, All}
use auth_proxy.Exec.{Exec}
use auth_proxy.Env.{Env, Request, Config}
use auth_proxy.Proxy.Exchange.{Exchange, Handler}
use auth_proxy.Proxy.Exchange.Writes.{Writes}
use auth_proxy.Proxy.Responses.Redacted.{Redacted}
use auth_proxy.Proxy.Guards.Redacted.{admin_only-Redacted, authorized_user_only-Redacted}
use auth_proxy.Proxy.LocalUsers.Redacted.{
  add_local_user-Redacted, delete_local_user-Redacted, update_local_user-Redacted,
  get_local_users-Redacted, get_local_user-Redacted,
}
use auth_proxy.Proxy.LdapConfigurations.Redacted.{
  add_ldap_configuration-Redacted, get_ldap_configuration-Redacted,
  delete_ldap_configuration-Redacted, update_ldap_configuration-Redacted,
}
use auth_proxy.Proxy.Routes.{
  Route, user_mgmt_routes, ldap_configuration_mgmt_routes, routes, routed, serve_request,
}
use auth_proxy.Proxy.Routes.Closed.{all-mem}
use auth_proxy.Proxy.Routes.Served.{server}

module _ (env : Env) where
  open env use {World}

  abbrev RedactedRoute : Route World → Type 0
  RedactedRoute r = (req : Request) → Writes (Redacted env req) (r.handler req)

  user_mgmt_routes-Redacted : All RedactedRoute (user_mgmt_routes env)
  unfolding user_mgmt_routes
  user_mgmt_routes-Redacted = search (
    admin_only-Redacted env,
    authorized_user_only-Redacted env,
    add_local_user-Redacted env,
    delete_local_user-Redacted env,
    update_local_user-Redacted env,
    get_local_users-Redacted env,
    get_local_user-Redacted env,
  )

  ldap_configuration_mgmt_routes-Redacted : All RedactedRoute (ldap_configuration_mgmt_routes env)
  unfolding ldap_configuration_mgmt_routes
  ldap_configuration_mgmt_routes-Redacted = search (
    admin_only-Redacted env,
    add_ldap_configuration-Redacted env,
    get_ldap_configuration-Redacted env,
    delete_ldap_configuration-Redacted env,
    update_ldap_configuration-Redacted env,
  )

module _ (env : Env) (ldap_authenticate : String → String → Exec env.World (String × List String))
    (file_server : Request → Handler env.World (Unit {0})) (config : Config)
    (router : List (Route env.World) → Request → Option (Route env.World × List (String × String)))
    (not_found : Request → Handler env.World (Unit {0})) where
  -- What the server writes to a request that the router gives to a route for users or for the LDAP
  -- configuration shows no secret, whatever the store holds: each text that it writes prints users
  -- without password and hash, or a configuration without its password, or it is an error response,
  -- whose text is one of a list of messages, or an error of reading or parsing the request's own body,
  -- of parsing a stored user, or of printing what has no secrets. This holds of all that was
  -- written, if it holds of what was written before; a message stands for its format, whose values are
  -- left out.
  pub serve_request-Redacted :
      (req : Request) (r : Route env.World) (vars : List (String × String)) (x : Exchange env.World)
      → router (routes env ldap_authenticate file_server config) req ≡ some (r, vars)
      → Memᴰ r (user_mgmt_routes env) ⊎ Memᴰ r (ldap_configuration_mgmt_routes env)
      → All (Redacted env (record req { vars = vars })) x.out
      → All
          (Redacted env (record req { vars = vars }))
          (server env ldap_authenticate file_server config router not_found req x).1.out
  unfolding serve_request routed
  serve_request-Redacted req r vars x found managed h =
      let req' = record req { vars = vars } in
      let redacted : RedactedRoute env r = elim managed [
        | inl user ↦
            all-mem (RedactedRoute env) (user_mgmt_routes env) r (user_mgmt_routes-Redacted env)
              user
        | inr ldap ↦
            all-mem (RedactedRoute env) (ldap_configuration_mgmt_routes env) r
              (ldap_configuration_mgmt_routes-Redacted env) ldap
      ] in
      rw found ((redacted req').at x h)
