-- ===== src/Proxy/Rbac/Answers.antt =====
-- The statuses of the replies of enforceRBAC.
use auth_proxy.Prelude.{ℕ, ◌||◌, Bool, true, false, not, ◌==◌, String, Option, none, some}
use auth_proxy.Exec.Returns.{Returns, Anything}
use auth_proxy.Text.{is_empty}
use auth_proxy.Env.{
  Env, Request, Config, Kind, app_profile, endpoint_group, ext_contracts_group, netprofile, network,
  policy, rule, service_lb,
}
use auth_proxy.Auth.Tokens.{Token}
use auth_proxy.Auth.Policy.{is_superuser}
use auth_proxy.Auth.Filters.{
  null_filter, filter_app_profiles, filter_endpoint_groups, filter_net_profiles, filter_networks,
  filter_policies, filter_rules, filter_service_lbs, filter_tenants,
}
use auth_proxy.Auth.Filters.Returning.{
  null_filter-Returns, filter_by_tenant-Returns, filter_ext_contracts_groups-Returns,
}
use auth_proxy.Proxy.Exchange.{var}
use auth_proxy.Proxy.Exchange.Answers.{
  Answers, Answers-pure, Answers-if, Answers-bind, Answers-then, Answers-call,
}
use auth_proxy.Proxy.Responses.Answers.{headers-Answers, auth_error-Answers}
use auth_proxy.Proxy.Tokens.Answers.{is_none, validate_token-Answers}
use auth_proxy.Proxy.Guards.{is_true}
use auth_proxy.Proxy.Forwarding.{proxy_request}
use auth_proxy.Proxy.Forwarding.Answers.{proxy_request-Answers}
use auth_proxy.Proxy.ResourceDetails.Answers.{check_claims-Answers, authorized-Answers}
use auth_proxy.Proxy.Rbac.{
  kind_of, filter_of, if_allowed, insufficient, rbac_kind, rbac_endpoints, rbac_tenants, rbac_other,
  rbac_entry, rbac_using_tenant, is_public_global, rbac_by_resource, for_user, enforce_rbac,
}

module _ (env : Env) (config : Config) {P : ℕ → Type 0} (any : (n : ℕ) → P n) where
  filter_of-Returns :
      (k : Kind) (t : Token) (body : String) → Returns Anything (filter_of env config k t body)
  unfolding filter_of filter_app_profiles filter_endpoint_groups filter_net_profiles filter_networks
      filter_policies filter_rules filter_service_lbs filter_tenants
  filter_of-Returns ext_contracts_group = filter_ext_contracts_groups-Returns env
  filter_of-Returns app_profile = filter_by_tenant-Returns env app_profile
  filter_of-Returns endpoint_group = filter_by_tenant-Returns env endpoint_group
  filter_of-Returns netprofile = filter_by_tenant-Returns env netprofile
  filter_of-Returns network = filter_by_tenant-Returns env network
  filter_of-Returns policy = filter_by_tenant-Returns env policy
  filter_of-Returns rule = filter_by_tenant-Returns env rule
  filter_of-Returns service_lb = filter_by_tenant-Returns env service_lb
  filter_of-Returns Kind.tenant = filter_by_tenant-Returns env Kind.tenant

  -- The request, or the list, is proxied as it is.
  whole-Answers :
      (req : Request) (t : Token)
      → Answers P false (λ _. true) (proxy_request env config req t (null_filter env))
  whole-Answers req t =
      proxy_request-Answers env config any req t (null_filter env) (null_filter-Returns env t)

  kind-Answers :
      (req : Request) (t : Token) (k : Kind)
      → Answers P false (λ _. true) (proxy_request env config req t (filter_of env config k))
  kind-Answers req t k =
      proxy_request-Answers env config any req t (filter_of env config k) (filter_of-Returns k t)

  if_allowed-Answers :
      (req : Request) (t : Token) (b : Bool)
      → Answers P (not b) (λ _. true) (if_allowed env config req t b)
  unfolding if_allowed
  if_allowed-Answers req t true = whole-Answers req t
  if_allowed-Answers req t false = Answers-pure (λ _. true) tt

  insufficient-Answers : Answers P false (λ _. true) (insufficient env config)
  unfolding insufficient
  insufficient-Answers = auth_error-Answers env 403 _ (any 403)

  rbac_kind-Answers :
      (req : Request) (t : Token) (resource r_name : String) (k : Kind)
      → Answers P false (λ _. true) (rbac_kind env config req t resource r_name k)
  unfolding rbac_kind
  rbac_kind-Answers req t resource r_name k =
      Answers-if (is_empty r_name) _ _ (kind-Answers req t k) (
        Answers-bind not _ _ (authorized-Answers env config any req t resource r_name k)
          (if_allowed-Answers req t))

  rbac_endpoints-Answers :
      (req : Request) (t : Token) (resource r_name : String)
      → Answers P false (λ _. true) (rbac_endpoints env config req t resource r_name)
  unfolding rbac_endpoints
  rbac_endpoints-Answers req t resource r_name =
      Answers-if (is_empty r_name) _ _ (whole-Answers req t) (
        Answers-bind not _ _
          (authorized-Answers env config any req t resource r_name endpoint_group)
          (if_allowed-Answers req t))

  rbac_tenants-Answers :
      (req : Request) (t : Token) (r_name : String)
      → Answers P false (λ _. true) (rbac_tenants env config req t r_name)
  unfolding rbac_tenants filter_tenants
  rbac_tenants-Answers req t r_name =
      Answers-if (is_empty r_name) _ _
        (proxy_request-Answers env config any req t (filter_tenants env)
          (filter_by_tenant-Returns env Kind.tenant t))
        (Answers-bind not _ _ (check_claims-Answers env config any t r_name)
          (if_allowed-Answers req t))

  rbac_entry-Answers :
      (req : Request) (t : Token) (resource r_name : String) (k : Option Kind)
      → Answers P false (λ _. true) (rbac_entry env config req t resource r_name k)
  unfolding rbac_entry rbac_other
  rbac_entry-Answers req t resource r_name (some k) = rbac_kind-Answers req t resource r_name k
  rbac_entry-Answers req t resource r_name none =
      Answers-if (resource == "endpoints") _ _ (rbac_endpoints-Answers req t resource r_name) (
        Answers-if (resource == "tenants") _ _ (rbac_tenants-Answers req t r_name)
          insufficient-Answers)

  rbac_using_tenant-Answers :
      (req : Request) (t : Token) → Answers P false (λ _. true) (rbac_using_tenant env config req t)
  unfolding rbac_using_tenant
  rbac_using_tenant-Answers req t =
      let resource = var req.vars "resource" in
      rbac_entry-Answers req t resource (var req.vars "name") (kind_of resource)

  rbac_by_resource-Answers :
      (req : Request) (t : Token) → Answers P false (λ _. true) (rbac_by_resource env config req t)
  unfolding rbac_by_resource
  rbac_by_resource-Answers req t =
      let resource = var req.vars "resource" in
      Answers-if (resource == "aciGws" || resource == "Bgps") _ _ insufficient-Answers (
        Answers-if (resource == "globals") _ _
          (Answers-if (is_public_global env config req) _ _ (whole-Answers req t)
            insufficient-Answers)
          (Answers-if (resource == "tenants") _ _
            (Answers-if (req.method == "GET") _ _ (rbac_using_tenant-Answers req t)
              insufficient-Answers)
            (rbac_using_tenant-Answers req t)))

  for_user-Answers :
      (req : Request) (t : Option Token)
      → Answers P (is_none t) (λ _. true) (for_user env config req t)
  unfolding for_user
  for_user-Answers req none = Answers-pure (λ _. true) tt
  for_user-Answers req (some t) =
      Answers-bind (λ _. false) _ _ (Answers-call false (is_superuser env t))
        (λ r. Answers-if (is_true r) _ _ (whole-Answers req t) (rbac_by_resource-Answers req t))

  pub enforce_rbac-Answers :
      (req : Request) → Answers P false (λ _. true) (enforce_rbac env config req)
  unfolding enforce_rbac
  enforce_rbac-Answers req = Answers-then false _ _ (headers-Answers false) (
      Answers-bind is_none _ _ (validate_token-Answers env (λ n _. any n) req)
        (for_user-Answers req))
