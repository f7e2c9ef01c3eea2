-- ===== src/Proxy/Rbac/Preserving.antt =====
-- enforceRBAC, and the entry of the built-in administrator.
use auth_proxy.Prelude.{◌||◌, ◌==◌, Bool, String, Option, none, some}
use auth_proxy.Exec.Preserves.{
  Preserves, Preserves-pure, Preserves-if, Preserves-bind, Preserves-then,
}
use auth_proxy.Text.{is_empty}
use auth_proxy.Env.{
  Env, Request, Config, Kind, app_profile, endpoint_group, ext_contracts_group, netprofile, network,
  policy, rule, service_lb,
}
use auth_proxy.Env.Sparing.{Sparing}
use auth_proxy.Auth.Tokens.{Token}
use auth_proxy.Auth.Policy.Preserving.{is_superuser-Preserves}
use auth_proxy.Auth.Filters.{
  null_filter, filter_app_profiles, filter_endpoint_groups, filter_net_profiles, filter_networks,
  filter_policies, filter_rules, filter_service_lbs, filter_tenants,
}
use auth_proxy.Auth.Filters.Preserving.{
  null_filter-Preserves, filter_by_tenant-Preserves, filter_ext_contracts_groups-Preserves,
}
use auth_proxy.Proxy.Exchange.{var}
use auth_proxy.Proxy.Exchange.Preserving.{NoSlash, Spares, Spares-call}
use auth_proxy.Proxy.Responses.Preserving.{headers-Spares, auth_error-Spares}
use auth_proxy.Proxy.Tokens.Preserving.{validate_token-Spares}
use auth_proxy.Proxy.Guards.{is_true}
use auth_proxy.Proxy.Forwarding.{proxy_request}
use auth_proxy.Proxy.Forwarding.Preserving.{proxy_request-Spares}
use auth_proxy.Proxy.ResourceDetails.Preserving.{check_claims-Spares, authorized-Spares}
use auth_proxy.Proxy.Rbac.{
  kind_of, filter_of, if_allowed, insufficient, rbac_kind, rbac_endpoints, rbac_tenants, rbac_other,
  rbac_entry, rbac_using_tenant, is_public_global, rbac_by_resource, for_user, enforce_rbac,
}

module _ (env : Env) {I : env.World → Type 0} (s : Sparing env I) (config : Config) where
  filter_of-Preserves :
      (k : Kind) (t : Token) (body : String) → Preserves I (filter_of env config k t body)
  unfolding filter_of filter_app_profiles filter_endpoint_groups filter_net_profiles filter_networks
      filter_policies filter_rules filter_service_lbs filter_tenants
  filter_of-Preserves ext_contracts_group = filter_ext_contracts_groups-Preserves env s
  filter_of-Preserves app_profile = filter_by_tenant-Preserves env s app_profile
  filter_of-Preserves endpoint_group = filter_by_tenant-Preserves env s endpoint_group
  filter_of-Preserves netprofile = filter_by_tenant-Preserves env s netprofile
  filter_of-Preserves network = filter_by_tenant-Preserves env s network
  filter_of-Preserves policy = filter_by_tenant-Preserves env s policy
  filter_of-Preserves rule = filter_by_tenant-Preserves env s rule
  filter_of-Preserves service_lb = filter_by_tenant-Preserves env s service_lb
  filter_of-Preserves Kind.tenant = filter_by_tenant-Preserves env s Kind.tenant

  whole-Spares :
      (req : Request) (t : Token) → Spares I (proxy_request env config req t (null_filter env))
  whole-Spares req t =
      proxy_request-Spares env s config req t (null_filter env) (null_filter-Preserves env s t)

  kind-Spares :
      (req : Request) (t : Token) (k : Kind)
      → Spares I (proxy_request env config req t (filter_of env config k))
  kind-Spares req t k =
      proxy_request-Spares env s config req t (filter_of env config k) (filter_of-Preserves k t)

  if_allowed-Spares :
      (req : Request) (t : Token) (b : Bool) → Spares I (if_allowed env config req t b)
  unfolding if_allowed
  if_allowed-Spares req t b = Preserves-if b (whole-Spares req t) (Preserves-pure tt)

  insufficient-Spares : Spares I (insufficient env config)
  unfolding insufficient
  insufficient-Spares = auth_error-Spares env I 403 _

  rbac_kind-Spares :
      (req : Request) (t : Token) (resource r_name : String) (k : Kind)
      → Spares I (rbac_kind env config req t resource r_name k)
  unfolding rbac_kind
  rbac_kind-Spares req t resource r_name k = Preserves-if (is_empty r_name) (kind-Spares req t k) (
      Preserves-bind (authorized-Spares env s config req t resource r_name k)
        (if_allowed-Spares req t))

  rbac_endpoints-Spares :
      (req : Request) (t : Token) (resource r_name : String)
      → Spares I (rbac_endpoints env config req t resource r_name)
  unfolding rbac_endpoints
  rbac_endpoints-Spares req t resource r_name =
      Preserves-if (is_empty r_name) (whole-Spares req t) (
        Preserves-bind (authorized-Spares env s config req t resource r_name endpoint_group)
          (if_allowed-Spares req t))

  rbac_tenants-Spares :
      (req : Request) (t : Token) (r_name : String)
      → Spares I (rbac_tenants env config req t r_name)
  unfolding rbac_tenants filter_tenants
  rbac_tenants-Spares req t r_name =
      Preserves-if (is_empty r_name)
        (proxy_request-Spares env s config req t (filter_tenants env)
          (filter_by_tenant-Preserves env s Kind.tenant t))
        (Preserves-bind (check_claims-Spares env s config t r_name) (if_allowed-Spares req t))

  rbac_entry-Spares :
      (req : Request) (t : Token) (resource r_name : String) (k : Option Kind)
      → Spares I (rbac_entry env config req t resource r_name k)
  unfolding rbac_entry rbac_other
  rbac_entry-Spares req t resource r_name (some k) = rbac_kind-Spares req t resource r_name k
  rbac_entry-Spares req t resource r_name none =
      Preserves-if (resource == "endpoints") (rbac_endpoints-Spares req t resource r_name) (
        Preserves-if (resource == "tenants") (rbac_tenants-Spares req t r_name) insufficient-Spares)

  rbac_using_tenant-Spares :
      (req : Request) (t : Token) → Spares I (rbac_using_tenant env config req t)
  unfolding rbac_using_tenant
  rbac_using_tenant-Spares req t =
      let resource = var req.vars "resource" in
      rbac_entry-Spares req t resource (var req.vars "name") (kind_of resource)

  rbac_by_resource-Spares :
      (req : Request) (t : Token) → Spares I (rbac_by_resource env config req t)
  unfolding rbac_by_resource
  rbac_by_resource-Spares req t =
      let resource = var req.vars "resource" in
      Preserves-if (resource == "aciGws" || resource == "Bgps") insufficient-Spares (
        Preserves-if (resource == "globals")
          (Preserves-if (is_public_global env config req) (whole-Spares req t) insufficient-Spares)
          (Preserves-if (resource == "tenants")
            (Preserves-if (req.method == "GET") (rbac_using_tenant-Spares req t)
              insufficient-Spares)
            (rbac_using_tenant-Spares req t)))

  for_user-Spares : (req : Request) (t : Option Token) → Spares I (for_user env config req t)
  unfolding for_user
  for_user-Spares req none = Preserves-pure tt
  for_user-Spares req (some t) =
      Preserves-bind (Spares-call I (is_superuser-Preserves env s t))
        (λ r. Preserves-if (is_true r) (whole-Spares req t) (rbac_by_resource-Spares req t))

  pub enforce_rbac-Spares : (req : Request) → NoSlash req → Spares I (enforce_rbac env config req)
  unfolding enforce_rbac
  enforce_rbac-Spares req free =
      Preserves-then (headers-Spares I)
        (Preserves-bind (validate_token-Spares env s req) (for_user-Spares req))
