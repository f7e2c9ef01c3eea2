-- ===== src/Tests/TokenWitnesses.antt =====
-- The theorems about tokens and configurations at concrete ones.
use auth_proxy.Prelude.{true, false, ◌≡◌, refl, [], ◌∷◌, some, All}
use auth_proxy.Errors.{ok}
use auth_proxy.Text.{is_empty}
use auth_proxy.Text.Splitting.{is_free}
use auth_proxy.Text.Patterns.{matches_ip}
use auth_proxy.Types.{LdapConfiguration, admin, role_claim_key, role}
use auth_proxy.Env.{text}
use auth_proxy.Auth.Tokens.{
  Token, add_principals_claim, get_principals, with_role, add_claim, lookup_claim,
}
use auth_proxy.Auth.Tokens.Principals.{get_principals-add_principals_claim}
use auth_proxy.Auth.Tokens.Roles.{Strongest, is_admin, with_role-Strongest}
use auth_proxy.Proxy.LdapConfigurations.Tls.{
  validate_tls_params, well_tls, validate_tls_params-well_tls,
}
use auth_proxy.Tests.Deployment.{bearer}

names-free : All (λ q. is_free b';' q ≡ true) ("alice" ∷ "staff" ∷ [])
unfolding is_free
names-free = (refl, (refl, tt))

get_principals-add_principals_claim_example :
    get_principals (add_principals_claim bearer ("alice" ∷ "staff" ∷ []))
    ≡ ok ("alice" ∷ "staff" ∷ [])
get_principals-add_principals_claim_example =
    get_principals-add_principals_claim bearer "alice" ("staff" ∷ []) names-free

abbrev operator : Token
operator = record { claims = (role_claim_key, text "ops") ∷ [] }

abbrev administrator : Token
administrator = record { claims = (role_claim_key, text "admin") ∷ [] }

operator-raised :
    with_role operator admin (lookup_claim operator.claims role_claim_key) ≡ ok administrator
unfolding with_role lookup_claim role add_claim
operator-raised = refl

with_role-Strongest_example : Strongest operator administrator admin
with_role-Strongest_example =
    with_role-Strongest operator administrator admin is_admin operator-raised

abbrev configuration : LdapConfiguration
configuration = record {
  server = "ldap.example.com";
  port = 389;
  base_dn = "dc=example";
  service_account_dn = "cn=service";
  service_account_password = "secret";
  start_tls = true;
  insecure_skip_verify = false;
  tls_cert_issued_to = "";
}

abbrev named_configuration : LdapConfiguration
named_configuration = record configuration { tls_cert_issued_to = "ldap.example.com" }

configuration-validated : validate_tls_params configuration ≡ some named_configuration
unfolding validate_tls_params is_empty matches_ip
configuration-validated = refl

configuration-has_server : is_empty configuration.server ≡ false
unfolding is_empty
configuration-has_server = refl

validate_tls_params-well_tls_example :
    (well_tls named_configuration ≡ true)
    × (validate_tls_params named_configuration ≡ some named_configuration)
validate_tls_params-well_tls_example =
    validate_tls_params-well_tls configuration named_configuration configuration-has_server
      configuration-validated
