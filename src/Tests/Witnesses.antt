-- ===== src/Tests/Witnesses.antt =====
-- The theorems at the deployment of the tests.
use auth_proxy.Prelude.{◌≡◌, refl, false, [], ◌∷◌, any, select}
use auth_proxy.Errors.{ok}
use auth_proxy.Text.{split, has_prefix}
use auth_proxy.Driver.{read_all_state, unmarshal_all}
use auth_proxy.Types.{ops}
use auth_proxy.Db.Authorizations.{read_authorizations}
use auth_proxy.Auth.Claims.{role_object, tenant_object}
use auth_proxy.Auth.Tokens.{get_principals, get_claim, lookup_claim}
use auth_proxy.Auth.Policy.{check_claims, is_superuser}
use auth_proxy.Auth.Policy.Verdicts.{
  matching, allows, first_value, admin_among, granted_to_any, is_superuser-eq-any,
  check_claims-eq-verdict,
}
use auth_proxy.Proxy.Exchange.{received}
use auth_proxy.Proxy.Forwarding.{send_upstream}
use auth_proxy.Proxy.Forwarding.Headers.{send_upstream-headers}
use auth_proxy.Proxy.Guards.{admin_only, authorized_user_only}
use auth_proxy.Proxy.Guards.Admission.{
  Guarded, IsSuperuser, MayManage, admin_only-Guarded, authorized_user_only-Guarded,
}
use auth_proxy.Tests.Store.{values_below, memory}
use auth_proxy.Tests.Deployment.{
  authorization_codec, deployment, entries, bearer, request, config, start, stored_authorizations,
}

-- Proxy

admin_only-Guarded_example :
    Guarded deployment request
      (IsSuperuser deployment request)
      (λ h. admin_only deployment h request)
      start
admin_only-Guarded_example = admin_only-Guarded deployment request start

authorized_user_only-Guarded_example :
    Guarded deployment request
      (MayManage deployment request)
      (λ h. authorized_user_only deployment h request)
      start
authorized_user_only-Guarded_example = authorized_user_only-Guarded deployment request start

send_upstream-headers_example :
    (received (send_upstream deployment config request start).1.out).headers
    ≡ (received start.out).headers
send_upstream-headers_example = send_upstream-headers deployment config request start

-- Policies

entries-read : read_authorizations deployment memory entries ≡ (ok stored_authorizations, entries)
unfolding read_authorizations read_all_state unmarshal_all values_below has_prefix
    authorization_codec split
entries-read = refl

bearer-principals : get_principals bearer ≡ ok ("alice" ∷ [])
unfolding get_principals split
bearer-principals = refl

is_superuser-eq-any_example : is_superuser deployment bearer entries ≡ (ok false, entries)
unfolding get_claim lookup_claim split admin_among matching first_value any select
is_superuser-eq-any_example =
    is_superuser-eq-any deployment memory refl (ok stored_authorizations) entries entries-read
      bearer

check_claims-eq-verdict_example :
    check_claims deployment bearer (tenant_object "blue" ∷ role_object ops ∷ []) entries
    ≡ (ok tt, entries)
unfolding granted_to_any matching first_value allows any select
check_claims-eq-verdict_example =
    check_claims-eq-verdict deployment memory refl (ok stored_authorizations) entries entries-read
      bearer "blue" (role_object ops) ("alice" ∷ []) bearer-principals
