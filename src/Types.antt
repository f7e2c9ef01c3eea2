-- ===== src/Types.antt =====
-- common/types/types.go and common/types/authz.go: roles, users, authorizations, configurations.
use auth_proxy.Prelude.{ℕ, Bool, ◌&&◌, String, append, List, [], ◌∷◌, ◌==◌, nat_eq, if◌then◌else◌}
use auth_proxy.Errors.{sentinel, unsupported_type, Result, ok, err}

abbrev pub auth_proxy_dir : String
auth_proxy_dir = "auth_proxy"

-- `AuthZDir`
abbrev pub authz_dir : String
authz_dir = "auth_proxy/authorizations"

-- `DatastoreDirectories`
abbrev pub datastore_directories : List String
datastore_directories = authz_dir ∷ "auth_proxy/local_users" ∷ "auth_proxy/principals" ∷ []

abbrev pub tenant_claim_key : String
tenant_claim_key = "tenant:"

abbrev pub role_claim_key : String
role_claim_key = "role"

-- `RoleType`, an unsigned number with three named values.
abbrev pub RoleType : Type 0
RoleType = ℕ

abbrev pub admin : RoleType
admin = 0

abbrev pub ops : RoleType
ops = 1

abbrev pub invalid : RoleType
invalid = 2

-- `RoleType.String`
unfoldable pub role_string : RoleType → String
role_string role = if nat_eq role ops then "ops" else if nat_eq role admin then "admin" else ""

-- `Role`; the value beside the error, `Invalid`, is used by no caller.
unfoldable pub role : String → Result RoleType
unfolding role_string
role s =
    if s == role_string admin
    then ok admin
    else if s == role_string ops
    then ok ops
    else err (sentinel unsupported_type)

-- `Authorization`, without the driver that each value carries.
pub record Authorization : Type 0 where
  pub id : String
  pub uuid : String
  pub principal_name : String
  pub local : Bool
  pub claim_key : String
  pub claim_value : String

-- `types.Authorization{}`
abbrev pub no_authorization : Authorization
no_authorization = record {
  id = "";
  uuid = "";
  principal_name = "";
  local = Bool.false;
  claim_key = "";
  claim_value = "";
}

unfoldable pub belongs_to_built_in_admin : Authorization → Bool
unfolding role_string
belongs_to_built_in_admin a = a.local && role_string admin == a.principal_name

-- The key of an authorization in the store.
unfoldable pub authz_key : String → String
authz_key uuid = append authz_dir (append "/" uuid)

pub record LocalUser : Type 0 where
  pub username : String
  pub password : String
  pub first_name : String
  pub last_name : String
  pub disable : Bool
  pub password_hash : String

-- `port` is a `uint16`.
pub record LdapConfiguration : Type 0 where
  pub server : String
  pub port : ℕ
  pub base_dn : String
  pub service_account_dn : String
  pub service_account_password : String
  pub start_tls : Bool
  pub insecure_skip_verify : Bool
  pub tls_cert_issued_to : String
