-- ===== src/Auth/Login.antt =====
-- `Authenticate` and `generateToken` of auth/auth.go.
--
-- `ldap_authenticate` is `Authenticate` of auth/ldap/ldap.go, which returns the user's
-- distinguished name and groups.
pub mod Verified
pub mod Preserving
use auth_proxy.Prelude.{String, List, if◌then◌else◌}
use auth_proxy.Errors.{Error, is_denied_locally, is_panic, Result, ok, err}
use auth_proxy.Exec.{Exec, throw, attempt, ◌>>=◌}
use auth_proxy.Env.{Env, text}
use auth_proxy.Auth.Tokens.{username_claim_key, add_claim}
use auth_proxy.Auth.Issuing.{new_token_with_claims, stringify}
use auth_proxy.Auth.Local.{authenticate_locally}

module _ (env : Env)
    (ldap_authenticate : String → String → Exec env.World (String × List String)) where
  open env use {World}

  -- `generateToken`
  unfoldable pub generate_token : List String → String → Exec World String
  generate_token principals username = do
    t ← new_token_with_claims env principals
    stringify env (add_claim t username_claim_key (text username))

  -- The error of the LDAP server is dropped for the local one, whose variable it hides.
  unfoldable pub ldap_result : Error → Result (String × List String) → Exec World String
  ldap_result local_error (ok (fqdn, user_principals)) = generate_token user_principals fqdn
  ldap_result local_error (err e) = if is_panic e then throw e else throw local_error

  unfoldable pub local_result : String → String → Result (List String) → Exec World String
  unfolding ldap_result
  local_result username password (ok user_principals) = generate_token user_principals username
  local_result username password (err e) =
      if is_denied_locally e
      then (do r ← attempt (ldap_authenticate username password); ldap_result e r)
      else throw e

  -- `Authenticate`
  unfoldable pub authenticate : String → String → Exec World String
  unfolding local_result
  authenticate username password = do
    r ← attempt (authenticate_locally env username password)
    local_result username password r
