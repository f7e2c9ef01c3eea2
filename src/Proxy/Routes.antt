-- ===== src/Proxy/Routes.antt =====
-- The table of routes of proxy/proxy.go, and the handler of static files.
--
-- `router` is gorilla/mux: the route of the table that takes a request, with what it found in the path.
pub mod Closed
pub mod Served
pub mod Answered
pub mod Redacted
pub mod Spared
pub mod Runs
use auth_proxy.Prelude.{
  Bool, true, false, ◌==◌, ◌||◌, ◌&&◌, String, append, List, [], ◌∷◌, ◌++◌, Option, none, some,
}
use auth_proxy.Exec.{Exec, ◌>>=◌, ◌>>◌}
use auth_proxy.Env.{Env, Request, Config}
use auth_proxy.Proxy.Exchange.{Handler}
use auth_proxy.Proxy.Responses.{enable_hsts}
use auth_proxy.Proxy.Guards.{admin_only, authorized_user_only}
use auth_proxy.Proxy.Rbac.{enforce_rbac}
use auth_proxy.Proxy.LocalUsers.{
  add_local_user, delete_local_user, update_local_user, get_local_users, get_local_user,
}
use auth_proxy.Proxy.Authorizations.{
  add_authorization, delete_authorization, get_authorization, list_authorizations,
}
use auth_proxy.Proxy.LdapConfigurations.{
  add_ldap_configuration, get_ldap_configuration, delete_ldap_configuration,
  update_ldap_configuration,
}
use auth_proxy.Proxy.Login.{login_handler}
use auth_proxy.Proxy.Status.{health_check_handler, version_handler}

-- `V1Prefix`, `LoginPath`, `HealthCheckPath` and `VersionPath`
abbrev pub v1_prefix : String
v1_prefix = "/api/v1/auth_proxy"

abbrev pub login_path : String
login_path = append v1_prefix "/login/"

abbrev pub health_check_path : String
health_check_path = append v1_prefix "/health/"

abbrev pub version_path : String
version_path = append v1_prefix "/version/"

-- A route: its path, or the prefix of its paths, its methods, all if there are none, and its handler.
pub record Route (W : Type 0) : Type 0 where
  pub path : String
  pub is_prefix : Bool
  pub methods : List String
  pub handler : Request → Handler W (Unit {0})

abbrev route : {W : Type 0} → String → List String → (Request → Handler W (Unit {0})) → Route W
route path methods handler = record {
  path = path;
  is_prefix = false;
  methods = methods;
  handler = handler;
}

module _ (env : Env) where
  open env use {World}

  -- `addUserMgmtRoutes`
  unfoldable pub user_mgmt_routes : List (Route World)
  user_mgmt_routes =
      route (append v1_prefix "/local_users/") ("POST" ∷ []) (admin_only env (add_local_user env))
      ∷ route (append v1_prefix "/local_users/{username}/") ("DELETE" ∷ [])
          (admin_only env (delete_local_user env))
      ∷ route (append v1_prefix "/local_users/{username}/") ("PATCH" ∷ [])
          (authorized_user_only env (update_local_user env))
      ∷ route (append v1_prefix "/local_users/{username}/") ("GET" ∷ [])
          (authorized_user_only env (get_local_user env))
      ∷ route (append v1_prefix "/local_users/") ("GET" ∷ []) (admin_only env (get_local_users env))
      ∷ []

  -- `addAuthorizationRoutes`
  unfoldable pub authorization_routes : List (Route World)
  authorization_routes =
      route (append v1_prefix "/authorizations/") ("POST" ∷ [])
        (admin_only env (add_authorization env))
      ∷ route (append v1_prefix "/authorizations/{authzUUID}/") ("DELETE" ∷ [])
          (admin_only env (delete_authorization env))
      ∷ route (append v1_prefix "/authorizations/{authzUUID}/") ("GET" ∷ [])
          (admin_only env (get_authorization env))
      ∷ route (append v1_prefix "/authorizations/") ("GET" ∷ [])
          (admin_only env (list_authorizations env))
      ∷ []

  -- `addLdapConfigurationMgmtRoutes`
  unfoldable pub ldap_configuration_mgmt_routes : List (Route World)
  ldap_configuration_mgmt_routes =
      route (append v1_prefix "/ldap_configuration/") ("PUT" ∷ [])
        (admin_only env (add_ldap_configuration env))
      ∷ route (append v1_prefix "/ldap_configuration/") ("GET" ∷ [])
          (admin_only env (get_ldap_configuration env))
      ∷ route (append v1_prefix "/ldap_configuration/") ("DELETE" ∷ [])
          (admin_only env (delete_ldap_configuration env))
      ∷ route (append v1_prefix "/ldap_configuration/") ("PATCH" ∷ [])
          (admin_only env (update_ldap_configuration env))
      ∷ []

  -- `addNetmasterRoutes`
  unfoldable pub netmaster_routes : Config → List (Route World)
  netmaster_routes config =
      route "/api/v1/{resource}/" ("GET" ∷ []) (enforce_rbac env config)
      ∷ route "/api/v1/{resource}/{name}/" ("GET" ∷ "POST" ∷ "PUT" ∷ "DELETE" ∷ [])
          (enforce_rbac env config)
      ∷ route "/api/v1/inspect/{resource}/{name}/" ("GET" ∷ []) (enforce_rbac env config)
      ∷ []

  -- `ServeHTTP` of `staticFileHandler`; `file_server` is what `http.FileServer` makes.
  unfoldable pub static_files :
      (Request → Handler World (Unit {0})) → Request → Handler World (Unit {0})
  static_files file_server req = do enable_hsts; file_server req

  module _ (ldap_authenticate : String → String → Exec World (String × List String))
      (file_server : Request → Handler World (Unit {0})) (config : Config) where
    -- The routes that need no token.
    unfoldable pub public_routes : List (Route World)
    public_routes =
        route version_path ("GET" ∷ []) (version_handler env config.version)
        ∷ route health_check_path ("GET" ∷ []) (health_check_handler env config)
        ∷ route login_path ("POST" ∷ []) (login_handler env ldap_authenticate)
        ∷ []

    unfoldable pub static_route : Route World
    unfolding static_files
    static_route = record {
      path = "/";
      is_prefix = true;
      methods = [];
      handler = static_files file_server;
    }

    -- `addRoutes`
    unfoldable pub routes : List (Route World)
    unfolding public_routes user_mgmt_routes authorization_routes ldap_configuration_mgmt_routes
        netmaster_routes static_route
    routes =
        public_routes
        ++ user_mgmt_routes
        ++ authorization_routes
        ++ ldap_configuration_mgmt_routes
        ++ netmaster_routes config
        ++ (static_route ∷ [])

    module _ (router : List (Route World) → Request → Option (Route World × List (String × String)))
        (not_found : Request → Handler World (Unit {0})) where
      unfoldable pub routed :
          Request → Option (Route World × List (String × String)) → Handler World (Unit {0})
      routed req none = not_found req
      routed req (some (r, vars)) = r.handler (record req { vars = vars })

      -- What the server does with a request.
      unfoldable pub serve_request : Request → Handler World (Unit {0})
      unfolding routed routes
      serve_request req = routed req (router routes req)
