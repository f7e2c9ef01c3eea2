-- ===== src/Proxy/LdapConfigurations/Helpers.antt =====
-- The helpers of proxy/helpers.go for the LDAP configuration.
pub mod Statuses
pub mod Blanked
pub mod Preserving
use auth_proxy.Prelude.{false, ◌||◌, String, Option, none, some, nat_eq, if◌then◌else◌}
use auth_proxy.Errors.{is_key_not_found, is_key_exists, error_text, Result, ok, err}
use auth_proxy.Exec.{Exec, pure, attempt, ◌>>=◌}
use auth_proxy.Text.{is_empty}
use auth_proxy.Types.{LdapConfiguration}
use auth_proxy.Env.{Env}
use auth_proxy.Db.LdapConfigurations.{
  get_ldap_configuration, update_ldap_configuration, delete_ldap_configuration,
  add_ldap_configuration,
}
use auth_proxy.Proxy.LocalUsers.Helpers.{Reply}
use auth_proxy.Proxy.LdapConfigurations.Tls.{validate_tls_params, merged_configuration}

abbrev tls_missing : String
tls_missing = "InsecureSkipVerify or TLSCertIssuedTo must be provided for TLS/SSL connection"

module _ (env : Env) where
  open env use {World, ldap_json}

  shown : Result String → Reply
  shown (ok text) = (200, text)
  shown (err e) = (500, error_text e)

  -- The configuration as JSON, with no password.
  configuration_shown : LdapConfiguration → Reply
  unfolding shown
  configuration_shown cfg = shown (ldap_json.marshal (record cfg { service_account_password = "" }))

  configuration_updated : Result LdapConfiguration → Reply
  unfolding configuration_shown
  configuration_updated (ok cfg) = configuration_shown cfg
  configuration_updated (err e) =
      if is_key_not_found e
      then (404, "")
      else (500, "Failed to update LDAP settings to the data store")

  update_validated : String → Option LdapConfiguration → Exec World Reply
  unfolding configuration_updated
  update_validated password none = pure (400, tls_missing)
  update_validated password (some cfg) = do
    r ← attempt (update_ldap_configuration env cfg password)
    pure (configuration_updated r)

  -- `updateLdapConfigurationInfo`
  unfoldable pub update_ldap_configuration_info :
      LdapConfiguration → LdapConfiguration → Exec World Reply
  unfolding update_validated
  update_ldap_configuration_info given actual =
      update_validated actual.service_account_password
        (validate_tls_params (merged_configuration given actual))

  to_update : LdapConfiguration → Result LdapConfiguration → Exec World Reply
  to_update given (ok actual) = update_ldap_configuration_info given actual
  to_update given (err e) = pure (
      if is_key_not_found e
      then (404, "")
      else (500, "Failed to update LDAP settings to the data store"))

  -- `updateLdapConfigurationHelper`
  unfoldable pub update_ldap_configuration_helper : LdapConfiguration → Exec World Reply
  unfolding to_update
  update_ldap_configuration_helper given = do
    r ← attempt (get_ldap_configuration env)
    to_update given r

  configuration_deleted : Result (Unit {0}) → Reply
  configuration_deleted (ok _) = (204, "")
  configuration_deleted (err e) =
      if is_key_not_found e
      then (404, "")
      else (500, "Failed to delete LDAP configuration from the data store")

  -- `deleteLdapConfigurationHelper`
  unfoldable pub delete_ldap_configuration_helper : Exec World Reply
  unfolding configuration_deleted
  delete_ldap_configuration_helper = do
    r ← attempt (delete_ldap_configuration env)
    pure (configuration_deleted r)

  configuration_got : Result LdapConfiguration → Reply
  unfolding configuration_shown
  configuration_got (ok cfg) = configuration_shown cfg
  configuration_got (err e) =
      if is_key_not_found e
      then (404, "")
      else (500, "Failed to retrieve LDAP configuration from the data store")

  -- `getLdapConfigurationHelper`
  unfoldable pub get_ldap_configuration_helper : Exec World Reply
  unfolding configuration_got
  get_ldap_configuration_helper = do
    r ← attempt (get_ldap_configuration env)
    pure (configuration_got r)

  configuration_added : Result LdapConfiguration → Reply
  unfolding configuration_shown
  configuration_added (ok cfg) = configuration_shown cfg
  configuration_added (err e) =
      if is_key_exists e
      then (400, "LDAP setttings exists already. Request `update` if some config needs change")
      else (500, "Failed to add LDAP configuration to the system")

  add_validated : Option LdapConfiguration → Exec World Reply
  unfolding configuration_added
  add_validated none = pure (400, tls_missing)
  add_validated (some cfg) = do
    r ← attempt (add_ldap_configuration env cfg)
    pure (configuration_added r)

  -- What `addLdapConfigurationHelper` clears before it validates.
  abbrev without_tls : LdapConfiguration → LdapConfiguration
  without_tls cfg =
      if cfg.start_tls
      then cfg
      else record cfg { insecure_skip_verify = false; tls_cert_issued_to = "" }

  -- `addLdapConfigurationHelper`
  unfoldable pub add_ldap_configuration_helper : LdapConfiguration → Exec World Reply
  unfolding add_validated
  add_ldap_configuration_helper cfg =
      if is_empty cfg.server || nat_eq cfg.port 0
      then pure (400, "Invalid Server/Port details")
      else if is_empty cfg.service_account_dn || is_empty cfg.service_account_password
      then pure (400, "Empty service account DN/Password")
      else if is_empty cfg.base_dn
      then pure (400, "Empty base DN")
      else add_validated (validate_tls_params (without_tls cfg))
