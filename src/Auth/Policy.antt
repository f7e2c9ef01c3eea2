-- ===== src/Auth/Policy.antt =====
-- auth/policy.go, and `IsSuperuser` and `CheckClaims` of auth/token.go: what the authorizations in the
-- store allow to the bearer of a token.
pub mod Verdicts
pub mod Preserving
use auth_proxy.Prelude.{Bool, true, false, String, append, List, [], ◌∷◌, nat_eq, if◌then◌else◌}
use auth_proxy.Errors.{
  Error, sentinel, new_error, panic, unauthorized, internal, error_text, Result, ok, err,
}
use auth_proxy.Exec.{Exec, pure, throw, lift, attempt, ◌>>=◌, ◌>>◌}
use auth_proxy.Text.{split}
use auth_proxy.Types.{Authorization, RoleType, admin, role_claim_key, role}
use auth_proxy.Env.{Env}
use auth_proxy.Db.Authorizations.{list_by_claim_and_principal}
use auth_proxy.Auth.Claims.{
  ClaimObject, role_object, tenant_object, other_object, generate_claim_key, check_access_claim,
}
use auth_proxy.Auth.Tokens.{Token, principals_claim_key, get_claim, get_principals}

is_granted : Result (Unit {0}) → Bool
is_granted (ok _) = true
is_granted (err _) = false

-- What one round of the two policy loops makes of the authorizations that were listed: errors, empty
-- lists and invalid roles are passed over, and only the first authorization counts.
unfoldable pub grants : ClaimObject → Result (List Authorization) → Bool
unfolding is_granted
grants desired (ok (a ∷ _)) = elim (role a.claim_value) [
  | ok granted ↦ is_granted (check_access_claim granted desired)
  | err _ ↦ false
]
grants desired _ = false

-- One round of `IsSuperuser`.
unfoldable pub has_admin_role : Result (List Authorization) → Bool
has_admin_role (ok (a ∷ _)) = elim (role a.claim_value) [ ok r ↦ nat_eq r admin | err _ ↦ false ]
has_admin_role _ = false

module _ (env : Env) where
  open env use {World}

  -- The loop of `checkRolePolicy` and of `checkTenantPolicy` over the principals.
  unfoldable pub check_principals : String → ClaimObject → List String → Exec World (Unit {0})
  unfolding grants
  check_principals claim desired [] = throw (sentinel unauthorized)
  check_principals claim desired (p ∷ principals) = do
    r ← attempt (list_by_claim_and_principal env claim p)
    if grants desired r then pure tt else check_principals claim desired principals

  -- `checkRolePolicy`
  unfoldable pub check_role_policy : Token → RoleType → Exec World (Unit {0})
  check_role_policy t desired = do
    principals ← lift (get_principals t)
    check_principals role_claim_key (role_object desired) principals

  claim_string : Result String → Result String
  claim_string (ok s) = ok s
  claim_string (err e) =
      err (new_error internal (append "malformed claim statement, error:" (error_text e)))

  -- `checkTenantPolicy`
  unfoldable pub check_tenant_policy : Token → String → ClaimObject → Exec World (Unit {0})
  unfolding claim_string
  check_tenant_policy t tenant desired_access = do
    claim_str ← lift (claim_string (generate_claim_key (tenant_object tenant)))
    principals ← lift (get_principals t)
    check_principals claim_str desired_access principals

  -- `CheckClaims`; a tenant is followed by the access that is desired to it.
  unfoldable pub check_claims : Token → List ClaimObject → Exec World (Unit {0})
  check_claims t [] = pure tt
  check_claims t (role_object r ∷ objects) = do check_role_policy t r; check_claims t objects
  check_claims t (tenant_object tenant ∷ []) = throw (panic "index out of range")
  check_claims t (tenant_object tenant ∷ desired ∷ objects) = do
    check_tenant_policy t tenant desired
    check_claims t objects
  check_claims t (other_object ∷ objects) = throw (sentinel unauthorized)

  -- The loop of `IsSuperuser`.
  unfoldable pub any_admin : List String → Exec World Bool
  unfolding has_admin_role
  any_admin [] = pure false
  any_admin (p ∷ principals) = do
    r ← attempt (list_by_claim_and_principal env role_claim_key p)
    if has_admin_role r then pure true else any_admin principals

  -- `IsSuperuser`
  unfoldable pub is_superuser : Token → Exec World Bool
  is_superuser t = any_admin (split (get_claim t principals_claim_key) b';')
