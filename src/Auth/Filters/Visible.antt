-- ===== src/Auth/Filters/Visible.antt =====
-- What the filters leave of netmaster's lists.
use auth_proxy.Prelude.{String, append, List, select}
use auth_proxy.Errors.{Result}
use auth_proxy.Types.{Authorization, ops, tenant_claim_key}
use auth_proxy.Env.{Env, Kind}
use auth_proxy.Auth.Claims.{role_object}
use auth_proxy.Auth.Policy.Verdicts.{granted_to_any}

-- The objects whose tenants some principal may use with the role `ops`.
abbrev pub visible :
    (env : Env) (k : Kind)
    → Result (List Authorization)
    → List String
    → List (env.Object k)
    → List (env.Object k)
visible env k r principals objects =
    select
      (λ x.
        granted_to_any r (append tenant_claim_key (env.tenant_name k x)) (role_object ops)
          principals)
      objects
