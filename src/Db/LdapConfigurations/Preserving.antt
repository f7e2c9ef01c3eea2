-- ===== src/Db/LdapConfigurations/Preserving.antt =====
-- The functions of db/ldap.go, and the entry of the built-in administrator.
use auth_proxy.Prelude.{false, ◌≡◌, ◌==◌, refl, String, some}
use auth_proxy.Errors.{Result, ok, err, is_key_not_found}
use auth_proxy.Exec.Preserves.{
  Preserves, Preserves-pure, Preserves-throw, Preserves-attempt, Preserves-if, Preserves-bind,
  Preserves-then,
}
use auth_proxy.Types.{LdapConfiguration}
use auth_proxy.Driver.{StateDriver}
use auth_proxy.Env.{Env}
use auth_proxy.Env.Sparing.{admin_key, Sparing, with_driver}
use auth_proxy.Crypto.Preserving.{encrypt-Preserves}
use auth_proxy.Db.Keys.{get_path, local_user_key}
use auth_proxy.Db.LdapConfigurations.{
  or_message, ldap_key, configuration_read, read_configuration, store_configuration,
  with_encrypted_password, update_ldap_configuration, get_ldap_configuration,
  delete_ldap_configuration, add_ldap_configuration,
}

or_message-Preserves :
    {W A : Type 0} {I : W → Type 0} (t : String) (r : Result A) → Preserves I (or_message t r)
unfolding or_message
or_message-Preserves t (ok a) = Preserves-pure a
or_message-Preserves t (err e) = Preserves-throw _

ldap_key-apart : (ldap_key == admin_key) ≡ false
unfolding ldap_key admin_key local_user_key get_path
ldap_key-apart = refl

module _ (env : Env) {I : env.World → Type 0} (s : Sparing env I) where
  open env use {World, state_driver}

  read_configuration-Preserves :
      (d : StateDriver World) → state_driver ≡ some d → Preserves I (read_configuration env d)
  unfolding read_configuration configuration_read
  read_configuration-Preserves d at =
      Preserves-bind (Preserves-attempt ((s.driver d at).read ldap_key)) after
    where
      after : (r : Result String) → Preserves I (configuration_read env r)
      after (ok v) = or_message-Preserves _ _
      after (err e) = Preserves-if (is_key_not_found e) (Preserves-throw e) (Preserves-throw _)

  store_configuration-Preserves :
      (d : StateDriver World) (t : String) (cfg : LdapConfiguration)
      → state_driver ≡ some d
      → Preserves I (store_configuration env d t cfg)
  unfolding store_configuration
  store_configuration-Preserves d t cfg at =
      Preserves-bind (or_message-Preserves _ (env.ldap_json.marshal cfg)) (λ v.
        Preserves-bind (Preserves-attempt ((s.driver d at).write ldap_key v))
          (λ r. Preserves-then (or_message-Preserves t r) (Preserves-pure cfg)))

  with_encrypted_password-Preserves :
      (cfg : LdapConfiguration) → Preserves I (with_encrypted_password env cfg)
  unfolding with_encrypted_password
  with_encrypted_password-Preserves cfg =
      Preserves-bind (Preserves-attempt (encrypt-Preserves env s cfg.service_account_password))
        (λ r.
          Preserves-bind
            (or_message-Preserves "Failed to encrypt LDAP service account password: %#v" r)
            (λ p. Preserves-pure (record cfg { service_account_password = p })))

  pub update_ldap_configuration-Preserves :
      (cfg : LdapConfiguration) (password : String)
      → Preserves I (update_ldap_configuration env cfg password)
  unfolding update_ldap_configuration
  update_ldap_configuration-Preserves cfg password = with_driver state_driver (λ d at.
      Preserves-then (read_configuration-Preserves d at) (
        Preserves-bind
          (Preserves-if (cfg.service_account_password == password) (Preserves-pure cfg)
            (with_encrypted_password-Preserves cfg))
          (λ updated. store_configuration-Preserves d _ updated at)))

  pub get_ldap_configuration-Preserves : Preserves I (get_ldap_configuration env)
  unfolding get_ldap_configuration
  get_ldap_configuration-Preserves = with_driver state_driver read_configuration-Preserves

  pub delete_ldap_configuration-Preserves : Preserves I (delete_ldap_configuration env)
  unfolding delete_ldap_configuration
  delete_ldap_configuration-Preserves = with_driver state_driver (λ d at.
      Preserves-then (read_configuration-Preserves d at) (
        Preserves-bind (Preserves-attempt ((s.driver d at).clear ldap_key ldap_key-apart))
          (or_message-Preserves "Failed to clear LDAP setting from data store: %#v")))

  pub add_ldap_configuration-Preserves :
      (cfg : LdapConfiguration) → Preserves I (add_ldap_configuration env cfg)
  unfolding add_ldap_configuration
  add_ldap_configuration-Preserves cfg = with_driver state_driver (λ d at.
      Preserves-bind (with_encrypted_password-Preserves cfg)
        (λ encrypted. store_configuration-Preserves d _ encrypted at))
