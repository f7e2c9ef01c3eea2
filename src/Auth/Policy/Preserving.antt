-- ===== src/Auth/Policy/Preserving.antt =====
-- Checking a token against the policies, and the entry of the built-in administrator.
use auth_proxy.Prelude.{String, List, [], ◌∷◌, true, false}
use auth_proxy.Exec.Preserves.{
  Preserves, Preserves-pure, Preserves-throw, Preserves-lift, Preserves-attempt, Preserves-if,
  Preserves-bind, Preserves-then,
}
use auth_proxy.Text.{split}
use auth_proxy.Types.{RoleType, role_claim_key}
use auth_proxy.Env.{Env}
use auth_proxy.Env.Sparing.{Sparing}
use auth_proxy.Db.Authorizations.Preserving.{list_by_claim_and_principal-Preserves}
use auth_proxy.Auth.Claims.{
  ClaimObject, role_object, tenant_object, other_object, generate_claim_key,
}
use auth_proxy.Auth.Tokens.{Token, principals_claim_key, get_claim, get_principals}
use auth_proxy.Auth.Policy.{
  claim_string, grants, has_admin_role, check_principals, check_role_policy, check_tenant_policy,
  check_claims, any_admin, is_superuser,
}

module _ (env : Env) {I : env.World → Type 0} (s : Sparing env I) where
  check_principals-Preserves :
      (claim : String) (desired : ClaimObject) (ps : List String)
      → Preserves I (check_principals env claim desired ps)
  unfolding check_principals
  check_principals-Preserves claim desired [] = Preserves-throw _
  check_principals-Preserves claim desired (p ∷ ps) =
      Preserves-bind (Preserves-attempt (list_by_claim_and_principal-Preserves env s claim p)) (λ r.
        Preserves-if (grants desired r) (Preserves-pure tt)
          (check_principals-Preserves claim desired ps))

  check_role_policy-Preserves : (t : Token) (r : RoleType) → Preserves I (check_role_policy env t r)
  unfolding check_role_policy
  check_role_policy-Preserves t r =
      Preserves-bind (Preserves-lift (get_principals t))
        (check_principals-Preserves role_claim_key (role_object r))

  check_tenant_policy-Preserves :
      (t : Token) (tenant : String) (desired : ClaimObject)
      → Preserves I (check_tenant_policy env t tenant desired)
  unfolding check_tenant_policy
  check_tenant_policy-Preserves t tenant desired =
      Preserves-bind (Preserves-lift (claim_string env (generate_claim_key (tenant_object tenant))))
        (λ claim.
          Preserves-bind (Preserves-lift (get_principals t))
            (check_principals-Preserves claim desired))

  pub check_claims-Preserves :
      (t : Token) (objects : List ClaimObject) → Preserves I (check_claims env t objects)
  unfolding check_claims
  check_claims-Preserves t [] = Preserves-pure tt
  check_claims-Preserves t (role_object r ∷ objects) =
      Preserves-then (check_role_policy-Preserves t r) (check_claims-Preserves t objects)
  check_claims-Preserves t (tenant_object tenant ∷ []) = Preserves-throw _
  check_claims-Preserves t (tenant_object tenant ∷ desired ∷ objects) =
      Preserves-then (check_tenant_policy-Preserves t tenant desired)
        (check_claims-Preserves t objects)
  check_claims-Preserves t (other_object ∷ objects) = Preserves-throw _

  any_admin-Preserves : (ps : List String) → Preserves I (any_admin env ps)
  unfolding any_admin
  any_admin-Preserves [] = Preserves-pure false
  any_admin-Preserves (p ∷ ps) =
      Preserves-bind
        (Preserves-attempt (list_by_claim_and_principal-Preserves env s role_claim_key p))
        (λ r. Preserves-if (has_admin_role r) (Preserves-pure true) (any_admin-Preserves ps))

  pub is_superuser-Preserves : (t : Token) → Preserves I (is_superuser env t)
  unfolding is_superuser
  is_superuser-Preserves t = any_admin-Preserves (split (get_claim t principals_claim_key) b';')
