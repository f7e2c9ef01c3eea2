-- ===== src/Proxy/LdapConfigurations/Helpers/Preserving.antt =====
-- The helpers for the LDAP configuration, and the entry of the built-in administrator.
use auth_proxy.Prelude.{◌||◌, String, Option, none, some, nat_eq}
use auth_proxy.Errors.{Result, ok, err}
use auth_proxy.Exec.Preserves.{
  Preserves, Preserves-pure, Preserves-attempt, Preserves-if, Preserves-bind,
}
use auth_proxy.Text.{is_empty}
use auth_proxy.Types.{LdapConfiguration}
use auth_proxy.Env.{Env}
use auth_proxy.Env.Sparing.{Sparing}
use auth_proxy.Db.LdapConfigurations.Preserving.{
  update_ldap_configuration-Preserves, get_ldap_configuration-Preserves,
  delete_ldap_configuration-Preserves, add_ldap_configuration-Preserves,
}
use auth_proxy.Proxy.LdapConfigurations.Tls.{validate_tls_params, merged_configuration}
use auth_proxy.Proxy.LdapConfigurations.Helpers.{
  configuration_updated, update_validated, update_ldap_configuration_info, to_update,
  update_ldap_configuration_helper, configuration_deleted, delete_ldap_configuration_helper,
  configuration_got, get_ldap_configuration_helper, configuration_added, add_validated, without_tls,
  add_ldap_configuration_helper,
}

module _ (env : Env) {I : env.World → Type 0} (s : Sparing env I) where
  update_validated-Preserves :
      (password : String) (cfg : Option LdapConfiguration)
      → Preserves I (update_validated env password cfg)
  unfolding update_validated
  update_validated-Preserves password none = Preserves-pure _
  update_validated-Preserves password (some cfg) =
      Preserves-bind (Preserves-attempt (update_ldap_configuration-Preserves env s cfg password))
        (λ r. Preserves-pure (configuration_updated env r))

  to_update-Preserves :
      (given : LdapConfiguration) (r : Result LdapConfiguration)
      → Preserves I (to_update env given r)
  unfolding to_update update_ldap_configuration_info
  to_update-Preserves given (ok actual) =
      update_validated-Preserves actual.service_account_password
        (validate_tls_params (merged_configuration given actual))
  to_update-Preserves given (err e) = Preserves-pure _

  pub update_ldap_configuration_helper-Preserves :
      (given : LdapConfiguration) → Preserves I (update_ldap_configuration_helper env given)
  unfolding update_ldap_configuration_helper
  update_ldap_configuration_helper-Preserves given =
      Preserves-bind (Preserves-attempt (get_ldap_configuration-Preserves env s))
        (to_update-Preserves given)

  pub delete_ldap_configuration_helper-Preserves :
      Preserves I (delete_ldap_configuration_helper env)
  unfolding delete_ldap_configuration_helper
  delete_ldap_configuration_helper-Preserves =
      Preserves-bind (Preserves-attempt (delete_ldap_configuration-Preserves env s))
        (λ r. Preserves-pure (configuration_deleted env r))

  pub get_ldap_configuration_helper-Preserves : Preserves I (get_ldap_configuration_helper env)
  unfolding get_ldap_configuration_helper
  get_ldap_configuration_helper-Preserves =
      Preserves-bind (Preserves-attempt (get_ldap_configuration-Preserves env s))
        (λ r. Preserves-pure (configuration_got env r))

  add_validated-Preserves : (cfg : Option LdapConfiguration) → Preserves I (add_validated env cfg)
  unfolding add_validated
  add_validated-Preserves none = Preserves-pure _
  add_validated-Preserves (some cfg) =
      Preserves-bind (Preserves-attempt (add_ldap_configuration-Preserves env s cfg))
        (λ r. Preserves-pure (configuration_added env r))

  pub add_ldap_configuration_helper-Preserves :
      (cfg : LdapConfiguration) → Preserves I (add_ldap_configuration_helper env cfg)
  unfolding add_ldap_configuration_helper
  add_ldap_configuration_helper-Preserves cfg =
      Preserves-if (is_empty cfg.server || nat_eq cfg.port 0) (Preserves-pure _) (
        Preserves-if (is_empty cfg.service_account_dn || is_empty cfg.service_account_password)
          (Preserves-pure _)
          (Preserves-if (is_empty cfg.base_dn) (Preserves-pure _)
            (add_validated-Preserves (validate_tls_params (without_tls env cfg)))))
