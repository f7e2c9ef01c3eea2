-- ===== src/Proxy/LdapConfigurations/Helpers/Blanked.antt =====
-- The texts of the replies about the LDAP configuration (proxy/helpers.go).
use auth_proxy.Prelude.{◌≡◌, ◌||◌, inr, refl, String, Option, none, some, nat_eq}
use auth_proxy.Errors.{Error, error_text, Result, ok, err, is_key_not_found, is_key_exists}
use auth_proxy.Exec.Returns.{Returns, Returns-pure, Returns-if, Returns-attempt, Returns-mapped}
use auth_proxy.Text.{is_empty}
use auth_proxy.Types.{LdapConfiguration}
use auth_proxy.Env.{Env, Request}
use auth_proxy.Db.LdapConfigurations.{
  get_ldap_configuration as fetch, update_ldap_configuration as update,
  delete_ldap_configuration as remove, add_ldap_configuration as insert,
}
use auth_proxy.Proxy.LdapConfigurations.Tls.{validate_tls_params, merged_configuration}
use auth_proxy.Proxy.Responses.Redacted.{
  is_message, Explained, unprinted_configuration, Blank, BlankReply, BlankReply-if, BlankReply-none,
  BlankReply-error, BlankReply-stated,
}
use auth_proxy.Proxy.LdapConfigurations.Helpers.{
  shown, configuration_shown, configuration_updated, update_validated,
  update_ldap_configuration_info, to_update, update_ldap_configuration_helper,
  configuration_deleted, delete_ldap_configuration_helper, configuration_got,
  get_ldap_configuration_helper, configuration_added, add_validated, without_tls,
  add_ldap_configuration_helper,
}

module _ (env : Env) (req : Request) where
  shown-Blank :
      (r : Result String)
      → ((t : String) → r ≡ ok t → Blank env req t)
      → ((e : Error) → r ≡ err e → Explained env req (error_text e))
      → BlankReply env req (shown env r)
  unfolding shown
  shown-Blank (ok text) k f = record { shown = λ h. k text refl; told = λ silent other. cc }
  shown-Blank (err e) k f = BlankReply-error env req 500 (error_text e) refl (f e refl)

  configuration_shown-Blank :
      (cfg : LdapConfiguration) → (BlankReply env req) (configuration_shown env cfg)
  unfolding configuration_shown
  configuration_shown-Blank cfg =
      shown-Blank (env.ldap_json.marshal (record cfg { service_account_password = "" }))
        (λ t m. inr (inr (record cfg { service_account_password = "" }, m, refl)))
        (λ e m. unprinted_configuration (record cfg { service_account_password = "" }) e refl m)

  configuration_updated-Blank :
      (r : Result LdapConfiguration) → (BlankReply env req) (configuration_updated env r)
  unfolding configuration_updated is_message
  configuration_updated-Blank (ok cfg) = configuration_shown-Blank cfg
  configuration_updated-Blank (err e) =
      BlankReply-if env req (is_key_not_found e) _ _ (BlankReply-none env req _ _ refl refl)
        (BlankReply-stated env req _ _ refl refl)

  update_validated-Blank :
      (password : String) (cfg : Option LdapConfiguration)
      → Returns (BlankReply env req) (update_validated env password cfg)
  unfolding update_validated is_message
  update_validated-Blank password none = Returns-pure _ (BlankReply-stated env req _ _ refl refl)
  update_validated-Blank password (some cfg) =
      Returns-mapped (update env cfg password) (configuration_updated env)
        configuration_updated-Blank

  to_update-Blank :
      (given : LdapConfiguration) (r : Result LdapConfiguration)
      → Returns (BlankReply env req) (to_update env given r)
  unfolding to_update update_ldap_configuration_info is_message
  to_update-Blank given (ok actual) =
      update_validated-Blank actual.service_account_password
        (validate_tls_params (merged_configuration given actual))
  to_update-Blank given (err e) = Returns-pure _ (
      BlankReply-if env req (is_key_not_found e) _ _ (BlankReply-none env req _ _ refl refl)
        (BlankReply-stated env req _ _ refl refl))

  pub update_ldap_configuration_helper-Blank :
      (given : LdapConfiguration)
      → Returns (BlankReply env req) (update_ldap_configuration_helper env given)
  unfolding update_ldap_configuration_helper
  update_ldap_configuration_helper-Blank given =
      Returns-attempt (fetch env) (to_update env given) (to_update-Blank given)

  configuration_deleted-Blank :
      (r : Result (Unit {0})) → (BlankReply env req) (configuration_deleted env r)
  unfolding configuration_deleted is_message
  configuration_deleted-Blank (ok _) = BlankReply-none env req _ _ refl refl
  configuration_deleted-Blank (err e) =
      BlankReply-if env req (is_key_not_found e) _ _ (BlankReply-none env req _ _ refl refl)
        (BlankReply-stated env req _ _ refl refl)

  pub delete_ldap_configuration_helper-Blank :
      Returns (BlankReply env req) (delete_ldap_configuration_helper env)
  unfolding delete_ldap_configuration_helper
  delete_ldap_configuration_helper-Blank =
      Returns-mapped (remove env) (configuration_deleted env) configuration_deleted-Blank

  configuration_got-Blank :
      (r : Result LdapConfiguration) → (BlankReply env req) (configuration_got env r)
  unfolding configuration_got is_message
  configuration_got-Blank (ok cfg) = configuration_shown-Blank cfg
  configuration_got-Blank (err e) =
      BlankReply-if env req (is_key_not_found e) _ _ (BlankReply-none env req _ _ refl refl)
        (BlankReply-stated env req _ _ refl refl)

  pub get_ldap_configuration_helper-Blank :
      Returns (BlankReply env req) (get_ldap_configuration_helper env)
  unfolding get_ldap_configuration_helper
  get_ldap_configuration_helper-Blank =
      Returns-mapped (fetch env) (configuration_got env) configuration_got-Blank

  configuration_added-Blank :
      (r : Result LdapConfiguration) → (BlankReply env req) (configuration_added env r)
  unfolding configuration_added is_message
  configuration_added-Blank (ok cfg) = configuration_shown-Blank cfg
  configuration_added-Blank (err e) =
      BlankReply-if env req (is_key_exists e) _ _ (BlankReply-stated env req _ _ refl refl)
        (BlankReply-stated env req _ _ refl refl)

  add_validated-Blank :
      (cfg : Option LdapConfiguration) → Returns (BlankReply env req) (add_validated env cfg)
  unfolding add_validated is_message
  add_validated-Blank none = Returns-pure _ (BlankReply-stated env req _ _ refl refl)
  add_validated-Blank (some cfg) =
      Returns-mapped (insert env cfg) (configuration_added env) configuration_added-Blank

  pub add_ldap_configuration_helper-Blank :
      (cfg : LdapConfiguration)
      → Returns (BlankReply env req) (add_ldap_configuration_helper env cfg)
  unfolding add_ldap_configuration_helper is_message
  add_ldap_configuration_helper-Blank cfg =
      Returns-if (is_empty cfg.server || nat_eq cfg.port 0) _ _
        (Returns-pure _ (BlankReply-stated env req _ _ refl refl))
        (Returns-if (is_empty cfg.service_account_dn || is_empty cfg.service_account_password) _ _
          (Returns-pure _ (BlankReply-stated env req _ _ refl refl))
          (Returns-if (is_empty cfg.base_dn) _ _
            (Returns-pure _ (BlankReply-stated env req _ _ refl refl))
            (add_validated-Blank (validate_tls_params (without_tls env cfg)))))
