-- ===== src/Auth/Login/Preserving.antt =====
-- The login, and the entry of the built-in administrator.
use auth_proxy.Prelude.{String, List}
use auth_proxy.Errors.{Error, Result, ok, err, is_denied_locally, is_panic}
use auth_proxy.Exec.{Exec}
use auth_proxy.Exec.Preserves.{
  Preserves, Preserves-throw, Preserves-attempt, Preserves-if, Preserves-bind,
}
use auth_proxy.Env.{Env, text}
use auth_proxy.Env.Sparing.{Sparing}
use auth_proxy.Auth.Tokens.{username_claim_key, add_claim}
use auth_proxy.Auth.Issuing.Preserving.{new_token_with_claims-Preserves, stringify-Preserves}
use auth_proxy.Auth.Local.Preserving.{authenticate_locally-Preserves}
use auth_proxy.Auth.Login.{generate_token, ldap_result, local_result, authenticate}

module _ (env : Env) {I : env.World → Type 0} (s : Sparing env I)
    (ldap_authenticate : String → String → Exec env.World (String × List String))
    (spares : (name password : String) → Preserves I (ldap_authenticate name password)) where
  generate_token-Preserves :
      (ps : List String) (name : String)
      → Preserves I (generate_token env ldap_authenticate ps name)
  unfolding generate_token
  generate_token-Preserves ps name =
      Preserves-bind (new_token_with_claims-Preserves env s ps)
        (λ t. stringify-Preserves env s (add_claim t username_claim_key (text name)))

  ldap_result-Preserves :
      (e : Error) (r : Result (String × List String))
      → Preserves I (ldap_result env ldap_authenticate e r)
  unfolding ldap_result
  ldap_result-Preserves e (ok (fqdn, ps)) = generate_token-Preserves ps fqdn
  ldap_result-Preserves e (err e') =
      Preserves-if (is_panic e') (Preserves-throw e') (Preserves-throw e)

  local_result-Preserves :
      (name password : String) (r : Result (List String))
      → Preserves I (local_result env ldap_authenticate name password r)
  unfolding local_result
  local_result-Preserves name password (ok ps) = generate_token-Preserves ps name
  local_result-Preserves name password (err e) =
      Preserves-if (is_denied_locally e)
        (Preserves-bind (Preserves-attempt (spares name password)) (ldap_result-Preserves e))
        (Preserves-throw e)

  pub authenticate-Preserves :
      (name password : String) → Preserves I (authenticate env ldap_authenticate name password)
  unfolding authenticate
  authenticate-Preserves name password =
      Preserves-bind (Preserves-attempt (authenticate_locally-Preserves env s name password))
        (local_result-Preserves name password)
