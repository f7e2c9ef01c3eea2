-- ===== src/Db/LdapConfigurations.antt =====
-- db/ldap.go: the LDAP configuration in the store.
pub mod Preserving
pub mod Adding
use auth_proxy.Prelude.{String, [], ◌∷◌, ◌==◌, if◌then◌else◌}
use auth_proxy.Errors.{errorf, is_key_not_found, Result, ok, err}
use auth_proxy.Exec.{Exec, pure, throw, attempt, ◌>>=◌, ◌>>◌}
use auth_proxy.Types.{LdapConfiguration}
use auth_proxy.Driver.{StateDriver, get_state_driver}
use auth_proxy.Env.{Env}
use auth_proxy.Crypto.{encrypt}
use auth_proxy.Db.Keys.{get_path, root_ldap_configuration}

-- An error of a call is replaced by a message of `fmt.Errorf`.
unfoldable pub or_message : {W A : Type 0} → String → Result A → Exec W A
or_message text (ok a) = pure a
or_message text (err e) = throw (errorf text)

unfoldable pub ldap_key : String
ldap_key = get_path (root_ldap_configuration ∷ [])

module _ (env : Env) where
  open env use {World, state_driver, ldap_json}

  configuration_read : Result String → Exec World LdapConfiguration
  unfolding or_message
  configuration_read (ok raw_data) =
      or_message "Failed to unmarshal ldap setting %#v: %#v" (ldap_json.unmarshal raw_data)
  configuration_read (err e) =
      if is_key_not_found e
      then throw e
      else throw (errorf "Failed to read ldap setting from data store: %#v")

  -- `getLdapConfiguration`
  unfoldable pub read_configuration : StateDriver World → Exec World LdapConfiguration
  unfolding configuration_read
  read_configuration state_drv = do r ← attempt (state_drv.read ldap_key); configuration_read r

  -- The end of `UpdateLdapConfiguration` and `AddLdapConfiguration`: marshal and write.
  unfoldable pub store_configuration :
      StateDriver World → String → LdapConfiguration → Exec World LdapConfiguration
  unfolding or_message
  store_configuration state_drv text cfg = do
    val ← or_message "Failed to marshal LDAP configuration %#v, %#v" (ldap_json.marshal cfg)
    r ← attempt (state_drv.write ldap_key val)
    or_message text r
    pure cfg

  -- The configuration with its password encrypted.
  unfoldable pub with_encrypted_password : LdapConfiguration → Exec World LdapConfiguration
  unfolding or_message
  with_encrypted_password cfg = do
    r ← attempt (encrypt env cfg.service_account_password)
    password ← or_message "Failed to encrypt LDAP service account password: %#v" r
    pure (record cfg { service_account_password = password })

  -- `UpdateLdapConfiguration`; a password that differs from the stored one is encrypted.
  unfoldable pub update_ldap_configuration :
      LdapConfiguration → String → Exec World LdapConfiguration
  unfolding get_state_driver
  update_ldap_configuration cfg existing_password = do
    state_drv ← get_state_driver state_driver
    read_configuration state_drv
    updated ←
        (if cfg.service_account_password == existing_password
          then pure cfg
          else with_encrypted_password cfg)
    store_configuration state_drv "Failed to update LDAP setting to data store: %#v" updated

  -- `GetLdapConfiguration`
  unfoldable pub get_ldap_configuration : Exec World LdapConfiguration
  unfolding get_state_driver
  get_ldap_configuration = do
    state_drv ← get_state_driver state_driver
    read_configuration state_drv

  -- `DeleteLdapConfiguration`
  unfoldable pub delete_ldap_configuration : Exec World (Unit {0})
  unfolding or_message get_state_driver
  delete_ldap_configuration = do
    state_drv ← get_state_driver state_driver
    read_configuration state_drv
    r ← attempt (state_drv.clear ldap_key)
    or_message "Failed to clear LDAP setting from data store: %#v" r

  -- `AddLdapConfiguration`
  unfoldable pub add_ldap_configuration : LdapConfiguration → Exec World LdapConfiguration
  unfolding get_state_driver
  add_ldap_configuration cfg = do
    state_drv ← get_state_driver state_driver
    encrypted ← with_encrypted_password cfg
    store_configuration state_drv "Failed to write LDAP setting to data store: %#v" encrypted
