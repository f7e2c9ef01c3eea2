-- ===== src/Proxy/Routes/Served.antt =====
-- What the server of proxy/proxy.go does with a request that its router gives to a route.
use mathlib.Core.List.{Memᴰ}
use mathlib.Core.List.Memᴰ
use auth_proxy.Prelude.{◌≡◌, ◌⊎◌, inl, inr, String, List, Option, some}
use auth_proxy.Exec.{Exec}
use auth_proxy.Env.{Env, Request, Config}
use auth_proxy.Proxy.Exchange.{Exchange, Handler}
use auth_proxy.Proxy.Routes.{
  Route, user_mgmt_routes, authorization_routes, ldap_configuration_mgmt_routes, netmaster_routes,
  public_routes, static_route, routes, routed, serve_request,
}
use auth_proxy.Proxy.Routes.Closed.{
  all-mem, IsClosed, ClosedRoute, IsManaged, ManagedRoute, management_routes,
  management_routes-Closed, management_routes-Managed, netmaster_routes-Closed,
}

module _ (env : Env) (ldap_authenticate : String → String → Exec env.World (String × List String))
    (file_server : Request → Handler env.World (Unit {0})) (config : Config)
    (router : List (Route env.World) → Request → Option (Route env.World × List (String × String)))
    (not_found : Request → Handler env.World (Unit {0})) where
  open env use {World}

  abbrev pub table : List (Route World)
  table = routes env ldap_authenticate file_server config

  abbrev pub server : Request → Handler World (Unit {0})
  server = serve_request env ldap_authenticate file_server config router not_found

  -- Where a route of the table comes from.
  pub table-cases :
      (r : Route World)
      → Memᴰ r table
      → Memᴰ r (public_routes env ldap_authenticate file_server config)
        ⊎ Memᴰ r (management_routes env)
        ⊎ Memᴰ r (netmaster_routes env config)
        ⊎ (r ≡ static_route env ldap_authenticate file_server config)
  unfolding routes management_routes
  table-cases r m =
      elim (Memᴰ.append_cases (public_routes env ldap_authenticate file_server config) m) [
        | inl open_ ↦ inl open_
        | inr m1 ↦ elim (Memᴰ.append_cases (user_mgmt_routes env) m1) [
          | inl user ↦ inr (inl (Memᴰ.append_left _ user))
          | inr m2 ↦ elim (Memᴰ.append_cases (authorization_routes env) m2) [
            | inl authz ↦
                inr (inl (Memᴰ.append_right (user_mgmt_routes env) (Memᴰ.append_left _ authz)))
            | inr m3 ↦ elim (Memᴰ.append_cases (ldap_configuration_mgmt_routes env) m3) [
              | inl ldap ↦ inr (
                  inl (
                    Memᴰ.append_right (user_mgmt_routes env)
                      (Memᴰ.append_right (authorization_routes env) ldap)))
              | inr m4 ↦ elim (Memᴰ.append_cases (netmaster_routes env config) m4) [
                | inl netmaster ↦ inr (inr (inl netmaster))
                | inr static ↦ inr (inr (inr (Memᴰ.eq_of_singleton static)))
              ]
            ]
          ]
        ]
      ]

  -- The router gives a request to a route of the table only.
  module _
      (in_table : (req : Request) (r : Route World) (vars : List (String × String))
        → router table req ≡ some (r, vars)
        → Memᴰ r table) where
    -- If the router gives requests to routes of the table only, then a request that it gives to a
    -- route is served by the version, health or login endpoint or by the static files, or its
    -- token is valid, or nothing is done to it but to validate the token, at once or after the
    -- default headers are set.
    pub serve_request-IsClosed :
        (req : Request) (r : Route World) (vars : List (String × String)) (x : Exchange World)
        → router table req ≡ some (r, vars)
        → Memᴰ r (public_routes env ldap_authenticate file_server config)
          ⊎ (r ≡ static_route env ldap_authenticate file_server config)
          ⊎ IsClosed env (λ _. server req) (record req { vars = vars }) x
    unfolding serve_request routed IsClosed
    serve_request-IsClosed req r vars x found = elim (table-cases r (in_table req r vars found)) [
      | inl open_ ↦ inl open_
      | inr (inl managed) ↦ inr (
          inr (
            rw found (
              all-mem (ClosedRoute env) (management_routes env) r (management_routes-Closed env)
                managed (record req { vars = vars }) x)))
      | inr (inr (inl netmaster)) ↦ inr (
          inr (
            rw found (
              all-mem (ClosedRoute env) (netmaster_routes env config) r
                (netmaster_routes-Closed env config) netmaster (record req { vars = vars }) x)))
      | inr (inr (inr static)) ↦ inr (inl static)
    ]

  -- A request that the router gives to a route for users, authorizations or LDAP configurations carries
  -- the valid token of a superuser or of the user whom its path names, or the server does exactly what
  -- a guard does for a handler that does nothing.
  pub serve_request-IsManaged :
      (req : Request) (r : Route World) (vars : List (String × String)) (x : Exchange World)
      → router table req ≡ some (r, vars)
      → Memᴰ r (management_routes env)
      → IsManaged env (λ _. server req) (record req { vars = vars }) x
  unfolding serve_request routed IsManaged
  serve_request-IsManaged req r vars x found managed = rw found (
      all-mem (ManagedRoute env) (management_routes env) r (management_routes-Managed env) managed
        (record req { vars = vars }) x)
