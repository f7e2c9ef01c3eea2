-- ===== src/Proxy/Rbac/Permits.antt =====
-- Why `enforceRBAC` may forward a request.
use auth_proxy.Prelude.{true, false, ◌≡◌, ◌||◌, String, some, ◌==◌}
use auth_proxy.Errors.{ok}
use auth_proxy.Text.{is_empty}
use auth_proxy.Env.{Env, Request, Config, Kind, endpoint_group}
use auth_proxy.Auth.Tokens.{Token}
use auth_proxy.Auth.Policy.{is_superuser}
use auth_proxy.Proxy.Exchange.{Exchange, var}
use auth_proxy.Proxy.Tokens.{validate_token}
use auth_proxy.Proxy.ResourceDetails.Owned.{MayUse, OwnObject}
use auth_proxy.Proxy.Rbac.{kind_of, is_public_global}

module _ (env : Env) (config : Config) where
  -- The resources that `rbacUsingTenant` knows.
  pub data Listed (resource : String) : Type 0 where
    object_list : (k : Kind) → kind_of resource ≡ some k → Listed resource
    endpoint_list : (resource == "endpoints") ≡ true → Listed resource
    tenant_list : (resource == "tenants") ≡ true → Listed resource

  -- The checks of `rbacUsingTenant` for the resource that the path of the request names.
  pub data TenantPermits (req : Request) (t : Token) (resource r_name : String) : Type 0 where
    -- a list, whose response is filtered
    is_list : is_empty r_name ≡ true → Listed resource → TenantPermits req t resource r_name
    own_object :
        (k : Kind)
        → kind_of resource ≡ some k
        → OwnObject env config req t resource r_name k
        → TenantPermits req t resource r_name
    own_endpoint :
        (resource == "endpoints") ≡ true
        → OwnObject env config req t resource r_name endpoint_group
        → TenantPermits req t resource r_name
    own_tenant :
        (resource == "tenants") ≡ true
        → MayUse env config t r_name
        → TenantPermits req t resource r_name

  -- Why a request may be proxied with a token.
  pub data Permits (req : Request) (t : Token) : Type 0 where
    superuser : (w : env.World) → (is_superuser env t w).0 ≡ ok true → Permits req t
    public_global : is_public_global env config req ≡ true → Permits req t
    by_tenant :
        (var req.vars "resource" == "aciGws" || var req.vars "resource" == "Bgps") ≡ false
        → ((var req.vars "resource" == "tenants") ≡ true → (req.method == "GET") ≡ true)
        → TenantPermits req t (var req.vars "resource") (var req.vars "name")
        → Permits req t

  -- The token is valid for the request in some state, and permits it.
  pub record Admitted (req : Request) : Type 0 where
    pub token : Token
    pub before : Exchange env.World
    pub valid : (validate_token env req before).0 ≡ ok (some token)
    pub permits : Permits req token
