-- ===== src/Tests/AccountWitnesses.antt =====
-- The theorems about valid tokens and about roles at the deployment of the tests.
use auth_proxy.Prelude.{true, ◌≡◌, refl, [], some, select}
use auth_proxy.Errors.{ok}
use auth_proxy.Text.{split, has_prefix, is_empty}
use auth_proxy.Text.Patterns.{matches_username}
use auth_proxy.Types.{ops}
use auth_proxy.Driver.{get_state_driver, read_all_state, unmarshal_all, write_state}
use auth_proxy.Db.Keys.{local_user_key}
use auth_proxy.Db.LocalUsers.{get_local_user}
use auth_proxy.Db.Authorizations.{
  list_by_claim_and_principal, read_authorizations, insert_authorization, write_authorization,
}
use auth_proxy.Auth.Tokens.{get_claim, lookup_claim}
use auth_proxy.Auth.Issuing.{parse_token}
use auth_proxy.Auth.Authorizations.{
  update_role, add_role_authorization, insert_new, add_update_role_authorization,
}
use auth_proxy.Auth.Authorizations.Raising.{GrantsAtLeast, add_update_role_authorization-grants}
use auth_proxy.Auth.Tokens.Roles.{is_ops}
use auth_proxy.Proxy.Exchange.{Exchange, call}
use auth_proxy.Proxy.Tokens.{validate_token, check_user, check_token}
use auth_proxy.Proxy.Tokens.Valid.{Valid, validate_token-Valid}
use auth_proxy.Tests.Store.{Entries, find, values_below}
use auth_proxy.Tests.StoreWitnesses.{with_alice}
use auth_proxy.Tests.Deployment.{authorization_codec, bearer, request, deployment, entries}

-- GET of the networks, with `alice` in the store.
abbrev start_with_alice : Exchange Entries
start_with_alice = record { world = with_alice; out = []; sent = [] }

bearer-validated : (validate_token deployment request start_with_alice).0 ≡ ok (some bearer)
unfolding validate_token check_user check_token call parse_token get_local_user get_state_driver
    find local_user_key is_empty matches_username get_claim lookup_claim
bearer-validated = refl

validate_token-Valid_example : Valid deployment request bearer
validate_token-Valid_example =
    validate_token-Valid deployment request start_with_alice bearer bearer-validated

role-added :
    (add_update_role_authorization deployment ops "alice" true entries).0
    ≡ ok (record {
      id = "u9";
      uuid = "u9";
      principal_name = "alice";
      local = true;
      claim_key = "role";
      claim_value = "ops";
    })
unfolding add_update_role_authorization list_by_claim_and_principal read_authorizations
    read_all_state unmarshal_all values_below has_prefix authorization_codec split update_role
    select add_role_authorization insert_new insert_authorization write_authorization write_state
role-added = refl

add_update_role_authorization-grants_example :
    GrantsAtLeast
      (record {
        id = "u9";
        uuid = "u9";
        principal_name = "alice";
        local = true;
        claim_key = "role";
        claim_value = "ops";
      })
      ops
add_update_role_authorization-grants_example =
    add_update_role_authorization-grants deployment ops is_ops "alice" true _ entries role-added
