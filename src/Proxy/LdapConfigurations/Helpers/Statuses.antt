-- ===== src/Proxy/LdapConfigurations/Helpers/Statuses.antt =====
-- The statuses of the replies about the LDAP configuration.
use auth_proxy.Prelude.{◌||◌, refl, String, Option, none, some, nat_eq, arith}
use auth_proxy.Errors.{Result, ok, err}
use auth_proxy.Exec.Returns.{Returns, Returns-pure, Returns-if, Returns-attempt, Returns-mapped}
use auth_proxy.Text.{is_empty}
use auth_proxy.Types.{LdapConfiguration}
use auth_proxy.Env.{Env}
use auth_proxy.Db.LdapConfigurations.{
  get_ldap_configuration as fetch, update_ldap_configuration as update,
  delete_ldap_configuration as remove, add_ldap_configuration as insert,
}
use auth_proxy.Proxy.Responses.Answers.{is_own, OwnReply}
use auth_proxy.Proxy.LdapConfigurations.Tls.{validate_tls_params, merged_configuration}
use auth_proxy.Proxy.LdapConfigurations.Helpers.{
  shown, configuration_shown, configuration_updated, update_validated,
  update_ldap_configuration_info, to_update, update_ldap_configuration_helper,
  configuration_deleted, delete_ldap_configuration_helper, configuration_got,
  get_ldap_configuration_helper, configuration_added, add_validated, without_tls,
  add_ldap_configuration_helper,
}

module _ (env : Env) where
  shown-Own : (r : Result String) → OwnReply (shown env r)
  unfolding shown is_own
  shown-Own (ok text) = refl
  shown-Own (err e) = refl

  configuration_shown-Own : (cfg : LdapConfiguration) → OwnReply (configuration_shown env cfg)
  unfolding configuration_shown
  configuration_shown-Own cfg =
      shown-Own (env.ldap_json.marshal (record cfg { service_account_password = "" }))

  configuration_updated-Own :
      (r : Result LdapConfiguration) → OwnReply (configuration_updated env r)
  unfolding configuration_updated is_own
  configuration_updated-Own (ok cfg) = configuration_shown-Own cfg
  configuration_updated-Own (err e) = ground arith

  update_validated-Own :
      (password : String) (cfg : Option LdapConfiguration)
      → Returns OwnReply (update_validated env password cfg)
  unfolding update_validated is_own
  update_validated-Own password none = Returns-pure _ refl
  update_validated-Own password (some cfg) =
      Returns-mapped (update env cfg password) (configuration_updated env) configuration_updated-Own

  to_update-Own :
      (given : LdapConfiguration) (r : Result LdapConfiguration)
      → Returns OwnReply (to_update env given r)
  unfolding to_update update_ldap_configuration_info is_own
  to_update-Own given (ok actual) =
      update_validated-Own actual.service_account_password
        (validate_tls_params (merged_configuration given actual))
  to_update-Own given (err e) = Returns-pure _ (ground arith)

  pub update_ldap_configuration_helper-Own :
      (given : LdapConfiguration) → Returns OwnReply (update_ldap_configuration_helper env given)
  unfolding update_ldap_configuration_helper
  update_ldap_configuration_helper-Own given =
      Returns-attempt (fetch env) (to_update env given) (to_update-Own given)

  configuration_deleted-Own : (r : Result (Unit {0})) → OwnReply (configuration_deleted env r)
  unfolding configuration_deleted is_own
  configuration_deleted-Own (ok _) = refl
  configuration_deleted-Own (err e) = ground arith

  pub delete_ldap_configuration_helper-Own : Returns OwnReply (delete_ldap_configuration_helper env)
  unfolding delete_ldap_configuration_helper
  delete_ldap_configuration_helper-Own =
      Returns-mapped (remove env) (configuration_deleted env) configuration_deleted-Own

  configuration_got-Own : (r : Result LdapConfiguration) → OwnReply (configuration_got env r)
  unfolding configuration_got is_own
  configuration_got-Own (ok cfg) = configuration_shown-Own cfg
  configuration_got-Own (err e) = ground arith

  pub get_ldap_configuration_helper-Own : Returns OwnReply (get_ldap_configuration_helper env)
  unfolding get_ldap_configuration_helper
  get_ldap_configuration_helper-Own =
      Returns-mapped (fetch env) (configuration_got env) configuration_got-Own

  configuration_added-Own : (r : Result LdapConfiguration) → OwnReply (configuration_added env r)
  unfolding configuration_added is_own
  configuration_added-Own (ok cfg) = configuration_shown-Own cfg
  configuration_added-Own (err e) = ground arith

  add_validated-Own : (cfg : Option LdapConfiguration) → Returns OwnReply (add_validated env cfg)
  unfolding add_validated is_own
  add_validated-Own none = Returns-pure _ refl
  add_validated-Own (some cfg) =
      Returns-mapped (insert env cfg) (configuration_added env) configuration_added-Own

  pub add_ldap_configuration_helper-Own :
      (cfg : LdapConfiguration) → Returns OwnReply (add_ldap_configuration_helper env cfg)
  unfolding add_ldap_configuration_helper is_own
  add_ldap_configuration_helper-Own cfg =
      Returns-if (is_empty cfg.server || nat_eq cfg.port 0) _ _ (Returns-pure _ refl) (
        Returns-if (is_empty cfg.service_account_dn || is_empty cfg.service_account_password) _ _
          (Returns-pure _ refl)
          (Returns-if (is_empty cfg.base_dn) _ _ (Returns-pure _ refl)
            (add_validated-Own (validate_tls_params (without_tls env cfg)))))
