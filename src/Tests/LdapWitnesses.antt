-- ===== src/Tests/LdapWitnesses.antt =====
-- The theorems about LDAP and the login at a server with a cycle of groups.
use auth_proxy.Prelude.{
  ℕ, ◌≤◌, ◌+◌, true, false, ◌≡◌, ◌⊎◌, ◌↔◌, refl, arith, String, List, [], ◌∷◌, length, select, ◌==◌,
  Bool-cases, inl, inr,
}
use auth_proxy.Errors.{is_key_not_found, ok}
use auth_proxy.Exec.{otherwise}
use auth_proxy.Text.{is_empty, split, has_prefix}
use auth_proxy.Types.{LdapConfiguration}
use auth_proxy.Driver.{get_state_driver}
use auth_proxy.Db.Keys.{local_user_key}
use auth_proxy.Db.LocalUsers.{get_local_user}
use auth_proxy.Auth.Local.{authenticate_locally}
use auth_proxy.Auth.Ldap.{
  has, get_user_groups, manager_authenticate, session, connect, closing, or_denied, single_entry,
  user_request, group_request, search_group, search_groups, sub_groups, queued, ldap_authenticate,
}
use auth_proxy.Auth.Ldap.Directory.{IsDirectory, Belongs, unique, pending}
use auth_proxy.Auth.Ldap.Search.{get_user_groups-Belongs}
use auth_proxy.Auth.Ldap.Success.{Authenticated, manager_authenticate-Authenticated}
use auth_proxy.Auth.Login.{authenticate, generate_token}
use auth_proxy.Auth.Login.Verified.{IsLocal, IsRemote, authenticate-verified}
use auth_proxy.Env.{Env}
use auth_proxy.Globals
use auth_proxy.Auth.Issuing.{
  new_token_with_claims, new_token, add_role_claims, add_role_claim, stringify,
}
use auth_proxy.Auth.SigningKey.{get_token_signing_key, generate_token_signing_key, random_key}
use auth_proxy.Auth.Tokens.{with_authorizations}
use auth_proxy.Db.Authorizations.{list_by_claim_and_principal, read_authorizations}
use auth_proxy.Driver.{read_all_state, unmarshal_all}
use auth_proxy.Crypto.{encrypt, decrypt, get_private_key}
use auth_proxy.Tests.Store.{find, values_below}
use auth_proxy.Tests.StoreWitnesses.{with_alice}
use auth_proxy.Tests.Deployment.{deployment, authorization_codec}
use auth_proxy.Tests.Clients.{member_of, friendly}

abbrev all_groups : List String
all_groups = "ops" ∷ "staff" ∷ []

named-ops : (g h : String) → has (member_of g) h ≡ true → has all_groups h ≡ true
unfolding has
named-ops g h m = elim (Bool-cases (g == "ops")) [
  | inl ops ↦ let m' = (rw ops at m) in ground arith
  | inr not_ops ↦ let m' = (rw not_ops at m) in ground arith
]

cycle-IsDirectory : IsDirectory {W = ℕ} friendly "conn" member_of all_groups
unfolding group_request
cycle-IsDirectory = record {
  answers = λ g w named. (record { dn = g; member_of = member_of g }, w, refl, refl);
  closed = λ g h named m. named-ops g h m;
}

ops-named : (g : String) → has ("ops" ∷ []) g ≡ true → has all_groups g ≡ true
unfolding has
ops-named g h = ground arith

enough : length {A = String} ("ops" ∷ []) + pending member_of all_groups [] ≤ 3
unfolding pending has
enough = omega arith

get_user_groups-Belongs_example :
    (result : List String) × (w' : ℕ) × (get_user_groups friendly "conn" 3 ("ops" ∷ []) 0
      ≡ (ok result, w'))
    × (unique result ≡ true)
    × ((g : String) → (has result g ≡ true) ↔ Belongs member_of ("ops" ∷ []) g)
get_user_groups-Belongs_example =
    get_user_groups-Belongs friendly "conn" member_of all_groups cycle-IsDirectory ("ops" ∷ []) 3 0
      (omega arith) ops-named enough

abbrev settings : LdapConfiguration
settings = record {
  server = "ad";
  port = 389;
  base_dn = "ops";
  service_account_dn = "service";
  service_account_password = "secret";
  start_tls = true;
  insecure_skip_verify = false;
  tls_cert_issued_to = "ad";
}

abbrev answer : String × List String
answer = ("ops", "ops" ∷ "staff" ∷ [])

root-answered : manager_authenticate {W = ℕ} friendly settings 5 "root" "secret" 0 ≡ (ok answer, 0)
unfolding manager_authenticate connect session closing or_denied single_entry user_request
    group_request get_user_groups search_groups search_group sub_groups queued has otherwise
    is_empty select
root-answered = refl

manager_authenticate-Authenticated_example :
    Authenticated {W = ℕ} friendly settings 5 "root" "secret" answer 0 0
manager_authenticate-Authenticated_example =
    manager_authenticate-Authenticated friendly settings 5 "root" "secret" 0 answer 0 root-answered

-- The deployment once the program has noted the path of its key.
abbrev with_key : Env
with_key = record deployment { global = ("tls_key_file", "local.key") ∷ [] }

alice-token :
    (authenticate with_key
      (ldap_authenticate with_key friendly 5)
      "alice"
      "wonderland"
      with_alice).0
    ≡ ok "token"
unfolding authenticate authenticate_locally get_local_user find local_user_key generate_token
    new_token_with_claims new_token add_role_claims add_role_claim list_by_claim_and_principal
    read_authorizations read_all_state unmarshal_all values_below authorization_codec
    with_authorizations select stringify get_state_driver split has_prefix get_token_signing_key
    generate_token_signing_key random_key encrypt decrypt get_private_key is_empty is_key_not_found
    Globals.get
alice-token = refl

authenticate-verified_example :
    IsLocal with_key friendly "alice" "wonderland" with_alice
    ⊎ IsRemote with_key friendly "alice" "wonderland" 5
        (authenticate_locally with_key "alice" "wonderland" with_alice).1
authenticate-verified_example =
    authenticate-verified with_key friendly "alice" "wonderland" 5 "token" with_alice alice-token
