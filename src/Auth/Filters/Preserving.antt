-- ===== src/Auth/Filters/Preserving.antt =====
-- The filters, and the entry of the built-in administrator.
use auth_proxy.Prelude.{String, List, [], ◌∷◌, if◌then◌else◌}
use auth_proxy.Errors.{Result, ok, err}
use auth_proxy.Exec.Preserves.{Preserves, Preserves-pure, Preserves-attempt, Preserves-bind}
use auth_proxy.Types.{ops}
use auth_proxy.Env.{Env, Kind, ext_contracts_group}
use auth_proxy.Env.Sparing.{Sparing}
use auth_proxy.Auth.Claims.{role_object, tenant_object}
use auth_proxy.Auth.Tokens.{Token}
use auth_proxy.Auth.Policy.Preserving.{check_claims-Preserves}
use auth_proxy.Auth.Filters.{
  null_filter, allowed, succeeded, listed, listed_contracts, text_or_nil, filter_by_tenant,
  filter_ext_contracts_groups,
}

module _ (env : Env) {I : env.World → Type 0} (s : Sparing env I) where
  open env use {Object, objects_json, tenant_name}

  pub null_filter-Preserves : (t : Token) (body : String) → Preserves I (null_filter env t body)
  unfolding null_filter
  null_filter-Preserves t body = Preserves-pure body

  allowed-Preserves :
      (k : Kind) (t : Token) (xs : List (Object k)) → Preserves I (allowed env k t xs)
  unfolding allowed
  allowed-Preserves k t [] = Preserves-pure []
  allowed-Preserves k t (x ∷ xs) =
      Preserves-bind
        (Preserves-attempt
          (check_claims-Preserves env s t (tenant_object (tenant_name k x) ∷ role_object ops ∷ [])))
        (λ r.
          Preserves-bind (allowed-Preserves k t xs)
            (λ rest. Preserves-pure (if succeeded r then x ∷ rest else rest)))

  pub filter_by_tenant-Preserves :
      (k : Kind) (t : Token) (body : String) → Preserves I (filter_by_tenant env k t body)
  unfolding filter_by_tenant listed
  filter_by_tenant-Preserves k t body = after ((objects_json k).unmarshal body)
    where
      after : (r : Result (List (Object k))) → Preserves I (listed env k t r)
      after (ok objects) =
          Preserves-bind (allowed-Preserves k t objects)
            (λ filtered. Preserves-pure (text_or_nil ((objects_json k).marshal filtered)))
      after (err e) = Preserves-pure ""

  pub filter_ext_contracts_groups-Preserves :
      (t : Token) (body : String) → Preserves I (filter_ext_contracts_groups env t body)
  unfolding filter_ext_contracts_groups listed_contracts
  filter_ext_contracts_groups-Preserves t body =
      after ((objects_json ext_contracts_group).unmarshal body)
    where
      after :
          (r : Result (List (Object ext_contracts_group))) → Preserves I (listed_contracts env t r)
      after (ok objects) = Preserves-bind (allowed-Preserves ext_contracts_group t []) (λ filtered.
          Preserves-pure (text_or_nil ((objects_json ext_contracts_group).marshal filtered)))
      after (err e) = Preserves-pure ""
