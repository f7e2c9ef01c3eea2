-- ===== src/Auth/Filters.antt =====
-- auth/filters.go: netmaster's lists, cut down to what the bearer of the token may see.
pub mod Visible
pub mod Returning
pub mod Preserving
use auth_proxy.Prelude.{String, List, [], ◌∷◌, if◌then◌else◌, Bool, true, false}
use auth_proxy.Errors.{Result, ok, err}
use auth_proxy.Exec.{Exec, pure, attempt, ◌>>=◌}
use auth_proxy.Types.{ops}
use auth_proxy.Env.{
  Env, Kind, app_profile, endpoint_group, ext_contracts_group, netprofile, network, policy, rule,
  service_lb, tenant,
}
use auth_proxy.Auth.Claims.{role_object, tenant_object}
use auth_proxy.Auth.Tokens.{Token}
use auth_proxy.Auth.Policy.{check_claims}

succeeded : Result (Unit {0}) → Bool
succeeded (ok _) = true
succeeded (err _) = false

text_or_nil : Result String → String
text_or_nil (ok s) = s
text_or_nil (err _) = ""

module _ (env : Env) where
  open env use {World, Object, objects_json, tenant_name}

  -- `rbacFilter`
  abbrev pub RbacFilter : Type 0
  RbacFilter = Token → String → Exec World String

  -- `NullFilter`
  unfoldable pub null_filter : RbacFilter
  null_filter t body = pure body

  -- The loop of every filter: what `CheckClaims` allows is appended.
  unfoldable pub allowed : (k : Kind) → Token → List (Object k) → Exec World (List (Object k))
  unfolding succeeded
  allowed k t [] = pure []
  allowed k t (x ∷ xs) = do
    r ← attempt (check_claims env t (tenant_object (tenant_name k x) ∷ role_object ops ∷ []))
    rest ← allowed k t xs
    pure (if succeeded r then x ∷ rest else rest)

  listed : (k : Kind) → Token → Result (List (Object k)) → Exec World String
  unfolding text_or_nil
  listed k t (ok objects) = do
    filtered ← allowed k t objects
    pure (text_or_nil ((objects_json k).marshal filtered))
  listed k t (err e) = pure ""

  -- The text that the filters share, at each kind of objects.
  unfoldable pub filter_by_tenant : Kind → RbacFilter
  unfolding listed
  filter_by_tenant k t body = listed k t ((objects_json k).unmarshal body)

  unfoldable pub filter_app_profiles : RbacFilter
  filter_app_profiles = filter_by_tenant app_profile

  unfoldable pub filter_endpoint_groups : RbacFilter
  filter_endpoint_groups = filter_by_tenant endpoint_group

  listed_contracts : Token → Result (List (Object ext_contracts_group)) → Exec World String
  unfolding text_or_nil
  listed_contracts t (ok contract_groups) = do
    filtered ← allowed ext_contracts_group t []
    pure (text_or_nil ((objects_json ext_contracts_group).marshal filtered))
  listed_contracts t (err e) = pure ""

  -- `FilterExtContractsGroups`, whose loop runs over the empty result and not over the list.
  unfoldable pub filter_ext_contracts_groups : RbacFilter
  unfolding listed_contracts
  filter_ext_contracts_groups t body =
      listed_contracts t ((objects_json ext_contracts_group).unmarshal body)

  unfoldable pub filter_net_profiles : RbacFilter
  filter_net_profiles = filter_by_tenant netprofile

  unfoldable pub filter_networks : RbacFilter
  filter_networks = filter_by_tenant network

  unfoldable pub filter_policies : RbacFilter
  filter_policies = filter_by_tenant policy

  unfoldable pub filter_rules : RbacFilter
  filter_rules = filter_by_tenant rule

  unfoldable pub filter_service_lbs : RbacFilter
  filter_service_lbs = filter_by_tenant service_lb

  unfoldable pub filter_tenants : RbacFilter
  filter_tenants = filter_by_tenant tenant
