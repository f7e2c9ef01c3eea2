-- ===== src/Auth/Filters/Returning.antt =====
-- Every filter returns, whatever the store does.
use auth_proxy.Prelude.{String, List, [], ◌∷◌, if◌then◌else◌}
use auth_proxy.Errors.{Result, ok, err}
use auth_proxy.Exec.Returns.{Returns, Anything, Returns-pure, Returns-bind, Returns-attempt}
use auth_proxy.Types.{ops}
use auth_proxy.Env.{Env, Kind, ext_contracts_group}
use auth_proxy.Auth.Claims.{role_object, tenant_object}
use auth_proxy.Auth.Tokens.{Token}
use auth_proxy.Auth.Policy.{check_claims}
use auth_proxy.Auth.Filters.{
  null_filter, allowed, succeeded, listed, listed_contracts, text_or_nil, filter_by_tenant,
  filter_ext_contracts_groups,
}

module _ (env : Env) where
  open env use {Object, objects_json, tenant_name}

  pub null_filter-Returns : (t : Token) (body : String) → Returns Anything (null_filter env t body)
  unfolding null_filter
  null_filter-Returns t body = Returns-pure body tt

  allowed-Returns :
      (k : Kind) (t : Token) (xs : List (Object k)) → Returns Anything (allowed env k t xs)
  unfolding allowed
  allowed-Returns k t [] = Returns-pure [] tt
  allowed-Returns k t (x ∷ xs) =
      Returns-attempt (check_claims env t (tenant_object (tenant_name k x) ∷ role_object ops ∷ []))
        _
        (λ r.
          Returns-bind (allowed env k t xs) _ (allowed-Returns k t xs)
            (λ rest _. Returns-pure (if succeeded r then x ∷ rest else rest) tt))

  listed-Returns :
      (k : Kind) (t : Token) (r : Result (List (Object k))) → Returns Anything (listed env k t r)
  unfolding listed
  listed-Returns k t (ok objects) =
      Returns-bind (allowed env k t objects) _ (allowed-Returns k t objects)
        (λ filtered _. Returns-pure (text_or_nil ((objects_json k).marshal filtered)) tt)
  listed-Returns k t (err e) = Returns-pure "" tt

  pub filter_by_tenant-Returns :
      (k : Kind) (t : Token) (body : String) → Returns Anything (filter_by_tenant env k t body)
  unfolding filter_by_tenant
  filter_by_tenant-Returns k t body = listed-Returns k t ((objects_json k).unmarshal body)

  contracts-Returns :
      (t : Token) (r : Result (List (Object ext_contracts_group)))
      → Returns Anything (listed_contracts env t r)
  unfolding listed_contracts
  contracts-Returns t (ok objects) =
      Returns-bind (allowed env ext_contracts_group t []) _
        (allowed-Returns ext_contracts_group t [])
        (λ filtered _.
          Returns-pure (text_or_nil ((objects_json ext_contracts_group).marshal filtered)) tt)
  contracts-Returns t (err e) = Returns-pure "" tt

  pub filter_ext_contracts_groups-Returns :
      (t : Token) (body : String) → Returns Anything (filter_ext_contracts_groups env t body)
  unfolding filter_ext_contracts_groups
  filter_ext_contracts_groups-Returns t body =
      contracts-Returns t ((objects_json ext_contracts_group).unmarshal body)
