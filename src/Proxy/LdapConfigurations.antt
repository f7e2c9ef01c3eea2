-- ===== src/Proxy/LdapConfigurations.antt =====
-- The handlers of the LDAP configuration (proxy/handlers.go) and their helpers (proxy/helpers.go).
pub mod Tls
pub mod Helpers
pub mod Answers
pub mod Redacted
pub mod Preserving
use auth_proxy.Prelude.{String, append, ℕ}
use auth_proxy.Errors.{Error, errorf, error_text, Result, ok, err}
use auth_proxy.Exec.{Exec, throw, ◌>>=◌}
use auth_proxy.Types.{LdapConfiguration}
use auth_proxy.Env.{Env, Request}
use auth_proxy.Proxy.Exchange.{Handler, call}
use auth_proxy.Proxy.Responses.{server_error, process_status_codes}
use auth_proxy.Proxy.LdapConfigurations.Helpers.{
  add_ldap_configuration_helper, get_ldap_configuration_helper, delete_ldap_configuration_helper,
  update_ldap_configuration_helper,
}

module _ (env : Env) where
  open env use {World, ldap_json}

  respond : Result (ℕ × String) → Handler World (Unit {0})
  respond (ok (status_code, resp)) = process_status_codes env status_code resp
  respond (err e) = throw e

  with_body :
      String
      → (LdapConfiguration → Exec World (ℕ × String))
      → Result LdapConfiguration
      → Handler World (Unit {0})
  unfolding respond
  with_body text helper (ok ls) = do r ← call (helper ls); respond r
  with_body text helper (err e) = server_error env (errorf (append text (error_text e)))

  read_body :
      String
      → (LdapConfiguration → Exec World (ℕ × String))
      → Result String
      → Handler World (Unit {0})
  unfolding with_body
  read_body text helper (ok body) = with_body text helper (ldap_json.unmarshal body)
  read_body text helper (err e) =
      server_error env (errorf (append "Failed to read body from request: " (error_text e)))

  -- `addLdapConfiguration`
  unfoldable pub add_ldap_configuration : Request → Handler World (Unit {0})
  unfolding read_body
  add_ldap_configuration req =
      read_body "Failed to unmarshal LDAP info. from request body: "
        (add_ldap_configuration_helper env) req.body

  -- `getLdapConfiguration`
  unfoldable pub get_ldap_configuration : Request → Handler World (Unit {0})
  unfolding respond
  get_ldap_configuration req = do r ← call (get_ldap_configuration_helper env); respond r

  -- `deleteLdapConfiguration`
  unfoldable pub delete_ldap_configuration : Request → Handler World (Unit {0})
  unfolding respond
  delete_ldap_configuration req = do r ← call (delete_ldap_configuration_helper env); respond r

  -- `updateLdapConfiguration`
  unfoldable pub update_ldap_configuration : Request → Handler World (Unit {0})
  unfolding read_body
  update_ldap_configuration req =
      read_body "Failed to unmarshal user info. from request body: "
        (update_ldap_configuration_helper env) req.body
