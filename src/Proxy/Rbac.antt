-- ===== src/Proxy/Rbac.antt =====
-- proxy/rbac.go: which requests are proxied to netmaster, and with which filter on the response.
pub mod Permits
pub mod Forwards
pub mod Answers
pub mod Preserving
use auth_proxy.Prelude.{
  Bool, true, false, not, ◌&&◌, ◌||◌, String, append, List, [], ◌∷◌, Option, none, some, nat_eq,
  ◌==◌, if◌then◌else◌,
}
use auth_proxy.Errors.{Error, errorf, panic, Result, ok, err}
use auth_proxy.Exec.{pure, throw, ◌>>=◌, ◌>>◌}
use auth_proxy.Text.{is_empty, contains}
use auth_proxy.Types.{ops}
use auth_proxy.Env.{
  Env, Request, Response, Config, Kind, app_profile, endpoint_group, ext_contracts_group,
  netprofile, network, policy, rule, service_lb,
}
use auth_proxy.Auth.Claims.{role_object, tenant_object}
use auth_proxy.Auth.Tokens.{Token}
use auth_proxy.Auth.Policy.{is_superuser}
use auth_proxy.Auth.Filters.{
  RbacFilter, null_filter, filter_app_profiles, filter_endpoint_groups, filter_ext_contracts_groups,
  filter_net_profiles, filter_networks, filter_policies, filter_rules, filter_service_lbs,
  filter_tenants,
}
use auth_proxy.Proxy.Exchange.{Handler, write_header, write_body, emit, var, call}
use auth_proxy.Proxy.Responses.{set_default_response_headers, auth_error, server_error}
use auth_proxy.Proxy.Tokens.{validate_token}
use auth_proxy.Proxy.Guards.{is_true}
use auth_proxy.Proxy.Forwarding.{proxy_request}
use auth_proxy.Proxy.ResourceDetails.{check_claims, authorized}

-- The keys of `rbacDetails`, with the type that `newObj` makes.
unfoldable pub kind_of : String → Option Kind
kind_of resource =
    if resource == "appProfiles"
    then some app_profile
    else if resource == "endpointGroups"
    then some endpoint_group
    else if resource == "extContractsGroups"
    then some ext_contracts_group
    else if resource == "netprofiles"
    then some netprofile
    else if resource == "networks"
    then some network
    else if resource == "policys"
    then some policy
    else if resource == "rules"
    then some rule
    else if resource == "serviceLBs"
    then some service_lb
    else none

module _ (env : Env) (config : Config) where
  open env use {World}

  -- The filters of `rbacDetails`; "tenants" has no entry there.
  unfoldable pub filter_of : Kind → RbacFilter env
  filter_of app_profile = filter_app_profiles env
  filter_of endpoint_group = filter_endpoint_groups env
  filter_of ext_contracts_group = filter_ext_contracts_groups env
  filter_of netprofile = filter_net_profiles env
  filter_of network = filter_networks env
  filter_of policy = filter_policies env
  filter_of rule = filter_rules env
  filter_of service_lb = filter_service_lbs env
  filter_of Kind.tenant = filter_tenants env

  if_allowed : Request → Token → Bool → Handler World (Unit {0})
  if_allowed req t b = if b then proxy_request env config req t (null_filter env) else pure tt

  insufficient : Handler World (Unit {0})
  insufficient = auth_error env 403 "Insufficient privileges"

  -- The case of `rbacUsingTenant` for the resources of `rbacDetails`.
  unfoldable pub rbac_kind : Request → Token → String → String → Kind → Handler World (Unit {0})
  unfolding if_allowed
  rbac_kind req t resource r_name k =
      if is_empty r_name
      then proxy_request env config req t (filter_of k)
      else do b ← authorized env config req t resource r_name k; if_allowed req t b

  unfoldable pub rbac_endpoints : Request → Token → String → String → Handler World (Unit {0})
  unfolding if_allowed
  rbac_endpoints req t resource r_name =
      if is_empty r_name
      then proxy_request env config req t (null_filter env)
      else do b ← authorized env config req t resource r_name endpoint_group; if_allowed req t b

  unfoldable pub rbac_tenants : Request → Token → String → Handler World (Unit {0})
  unfolding if_allowed
  rbac_tenants req t r_name =
      if is_empty r_name
      then proxy_request env config req t (filter_tenants env)
      else do b ← check_claims env config t r_name; if_allowed req t b

  rbac_other : Request → Token → String → String → Handler World (Unit {0})
  unfolding insufficient
  rbac_other req t resource r_name =
      if resource == "endpoints"
      then rbac_endpoints req t resource r_name
      else if resource == "tenants"
      then rbac_tenants req t r_name
      else insufficient

  -- The two cases of `rbacUsingTenant`, by the entry of `rbacDetails`.
  rbac_entry : Request → Token → String → String → Option Kind → Handler World (Unit {0})
  unfolding rbac_other
  rbac_entry req t resource r_name (some k) = rbac_kind req t resource r_name k
  rbac_entry req t resource r_name none = rbac_other req t resource r_name

  -- `rbacUsingTenant`
  unfoldable pub rbac_using_tenant : Request → Token → Handler World (Unit {0})
  unfolding rbac_entry
  rbac_using_tenant req t =
      let resource = var req.vars "resource" in
      let r_name = var req.vars "name" in rbac_entry req t resource r_name (kind_of resource)

  -- GET of /inspect/globals/global is allowed to everyone.
  unfoldable pub is_public_global : Request → Bool
  unfolding var
  is_public_global req =
      contains req.request_uri "/inspect/"
      && req.method == "GET"
      && not (is_empty (var req.vars "name"))
      && var req.vars "name" == "global"

  -- The cases of `enforceRBAC` for a user who is not a superuser.
  unfoldable pub rbac_by_resource : Request → Token → Handler World (Unit {0})
  unfolding insufficient var
  rbac_by_resource req t =
      let resource = var req.vars "resource" in
      if resource == "aciGws" || resource == "Bgps"
      then insufficient
      else if resource == "globals"
      then (if is_public_global req
          then proxy_request env config req t (null_filter env)
          else insufficient)
      else if resource == "tenants"
      then (if req.method == "GET" then rbac_using_tenant req t else insufficient)
      else rbac_using_tenant req t

  unfoldable pub for_user : Request → Option Token → Handler World (Unit {0})
  unfolding call
  for_user req none = pure tt
  for_user req (some t) = do
    r ← call (is_superuser env t)
    if is_true r then proxy_request env config req t (null_filter env) else rbac_by_resource req t

  -- `enforceRBAC`
  unfoldable pub enforce_rbac : Request → Handler World (Unit {0})
  unfolding for_user
  enforce_rbac req = do set_default_response_headers; t ← validate_token env req; for_user req t
