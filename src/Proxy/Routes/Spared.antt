-- ===== src/Proxy/Routes/Spared.antt =====
-- The routes of proxy/proxy.go, and the entry of the built-in administrator.
use mathlib.Core.List.{Memᴰ}
use auth_proxy.Prelude.{◌≡◌, inl, inr, subst, sym, String, List, Option, some, All, Option-cases}
use auth_proxy.Exec.{Exec}
use auth_proxy.Exec.Preserves.{Preserves, Preserves-then}
use auth_proxy.Env.{Env, Request, Config}
use auth_proxy.Env.Sparing.{Sparing}
use auth_proxy.Proxy.Exchange.{Handler}
use auth_proxy.Proxy.Exchange.Preserving.{NoSlash, Spares}
use auth_proxy.Proxy.Responses.Preserving.{enable_hsts-Spares}
use auth_proxy.Proxy.Guards.Preserving.{admin_only-Spares, authorized_user_only-Spares}
use auth_proxy.Proxy.LocalUsers.Preserving.{
  add_local_user-Spares, delete_local_user-Spares, update_local_user-Spares, get_local_users-Spares,
  get_local_user-Spares,
}
use auth_proxy.Proxy.LdapConfigurations.Preserving.{
  add_ldap_configuration-Spares, get_ldap_configuration-Spares, delete_ldap_configuration-Spares,
  update_ldap_configuration-Spares,
}
use auth_proxy.Proxy.Authorizations.Preserving.{
  add_authorization-Spares, delete_authorization-Spares, get_authorization-Spares,
  list_authorizations-Spares,
}
use auth_proxy.Proxy.Login.Preserving.{login_handler-Spares}
use auth_proxy.Proxy.Status.Preserving.{health_check_handler-Spares, version_handler-Spares}
use auth_proxy.Proxy.Rbac.Preserving.{enforce_rbac-Spares}
use auth_proxy.Proxy.Routes.{
  Route, user_mgmt_routes, authorization_routes, ldap_configuration_mgmt_routes, netmaster_routes,
  public_routes, static_route, static_files, routes, routed, serve_request,
}
use auth_proxy.Proxy.Routes.Closed.{all-mem, management_routes}
use auth_proxy.Proxy.Routes.Served.{server, table-cases}

module _ (env : Env) {I : env.World → Type 0} (s : Sparing env I) where
  open env use {World}

  abbrev SparingRoute : Route World → Type 0
  SparingRoute r = (req : Request) → NoSlash req → Spares I (r.handler req)

  management_routes-Spare : All SparingRoute (management_routes env)
  unfolding management_routes user_mgmt_routes authorization_routes ldap_configuration_mgmt_routes
  management_routes-Spare = search (
    admin_only-Spares env s,
    authorized_user_only-Spares env s,
    add_local_user-Spares env s,
    delete_local_user-Spares env s,
    update_local_user-Spares env s,
    get_local_user-Spares env s,
    get_local_users-Spares env s,
    add_authorization-Spares env s,
    delete_authorization-Spares env s,
    get_authorization-Spares env s,
    list_authorizations-Spares env s,
    add_ldap_configuration-Spares env s,
    get_ldap_configuration-Spares env s,
    delete_ldap_configuration-Spares env s,
    update_ldap_configuration-Spares env s,
  )

  netmaster_routes-Spare : (config : Config) → All SparingRoute (netmaster_routes env config)
  unfolding netmaster_routes
  netmaster_routes-Spare config = search (enforce_rbac-Spares env s config)

  module _ (ldap_authenticate : String → String → Exec World (String × List String))
      (spares : (name password : String) → Preserves I (ldap_authenticate name password))
      (file_server : Request → Handler World (Unit {0}))
      (files : (req : Request) → Spares I (file_server req)) (config : Config) where
    public_routes-Spare : All SparingRoute (public_routes env ldap_authenticate file_server config)
    unfolding public_routes
    public_routes-Spare = search (
      version_handler-Spares env s,
      health_check_handler-Spares env s,
      login_handler-Spares env s ldap_authenticate spares,
    )

    static_route-Spares : SparingRoute (static_route env ldap_authenticate file_server config)
    unfolding static_route static_files
    static_route-Spares req free = Preserves-then (enable_hsts-Spares I) (files req)

    module _ (router : List (Route World) → Request → Option (Route World × List (String × String)))
        (not_found : Request → Handler World (Unit {0}))
        (missing : (req : Request) → Spares I (not_found req))
        (in_table : (req : Request) (r : Route World) (vars : List (String × String))
          → router (routes env ldap_authenticate file_server config) req ≡ some (r, vars)
          → Memᴰ r (routes env ldap_authenticate file_server config)
            × NoSlash (record req { vars = vars })) where
      route-Spares :
          (r : Route World)
          → Memᴰ r (routes env ldap_authenticate file_server config)
          → SparingRoute r
      route-Spares r m =
          elim (table-cases env ldap_authenticate file_server config router not_found r m) [
            | inl open_ ↦ all-mem SparingRoute _ r public_routes-Spare open_
            | inr (inl managed) ↦ all-mem SparingRoute _ r management_routes-Spare managed
            | inr (inr (inl netmaster)) ↦
                all-mem SparingRoute _ r (netmaster_routes-Spare config) netmaster
            | inr (inr (inr static)) ↦ subst SparingRoute (sym static) static_route-Spares
          ]

      pub server-Spares :
          (req : Request)
          → Spares I (server env ldap_authenticate file_server config router not_found req)
      unfolding serve_request routed
      server-Spares req =
          elim (Option-cases (router (routes env ldap_authenticate file_server config) req)) [
            | inl unknown ↦ rw (serve_request, unknown) (missing req)
            | inr ((r, vars), found) ↦
                let known = in_table req r vars found in
                rw (serve_request, found)
                  (route-Spares r known.0 (record req { vars = vars }) known.1)
          ]
