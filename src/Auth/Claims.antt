-- ===== src/Auth/Claims.antt =====
-- The claims that policies are about (auth/token.go), and the order of roles (auth/auth.go).
use auth_proxy.Prelude.{String, append, leb, if◌then◌else◌}
use auth_proxy.Errors.{sentinel, unauthorized, unsupported_type, Result, ok, err}
use auth_proxy.Types.{RoleType, role_claim_key, tenant_claim_key}

-- What the program passes as `interface{}`: a `types.RoleType`, a `types.Tenant` or another value.
pub data ClaimObject : Type 0 where
  role_object : RoleType → ClaimObject
  tenant_object : String → ClaimObject
  other_object : ClaimObject

-- `GenerateClaimKey`
unfoldable pub generate_claim_key : ClaimObject → Result String
generate_claim_key (role_object _) = ok role_claim_key
generate_claim_key (tenant_object name) = ok (append tenant_claim_key name)
generate_claim_key other_object = err (sentinel unsupported_type)

-- `checkAccessClaim`
unfoldable pub check_access_claim : RoleType → ClaimObject → Result (Unit {0})
check_access_claim granted (role_object desired) =
    if leb granted desired then ok tt else err (sentinel unauthorized)
check_access_claim granted (tenant_object _) = err (sentinel unsupported_type)
check_access_claim granted other_object = err (sentinel unsupported_type)
