-- ===== src/Proxy/LdapConfigurations/Answers.antt =====
-- The statuses that the handlers of the LDAP configuration write.
use auth_proxy.Prelude.{ℕ, ◌≡◌, refl, true, false, String}
use auth_proxy.Errors.{Result, ok, err}
use auth_proxy.Exec.{Exec, ◌>>=◌}
use auth_proxy.Exec.Returns.{Returns}
use auth_proxy.Types.{LdapConfiguration}
use auth_proxy.Env.{Env, Request}
use auth_proxy.Proxy.Exchange.{call}
use auth_proxy.Proxy.Exchange.Answers.{Answers, Answers-returned}
use auth_proxy.Proxy.Responses.Answers.{
  is_own, OwnReply, server_error-Answers, process_status_codes-Answers,
}
use auth_proxy.Proxy.LocalUsers.Helpers.{Reply}
use auth_proxy.Proxy.LdapConfigurations.Helpers.{
  update_ldap_configuration_helper, delete_ldap_configuration_helper, get_ldap_configuration_helper,
  add_ldap_configuration_helper,
}
use auth_proxy.Proxy.LdapConfigurations.Helpers.Statuses.{
  update_ldap_configuration_helper-Own, delete_ldap_configuration_helper-Own,
  get_ldap_configuration_helper-Own, add_ldap_configuration_helper-Own,
}
use auth_proxy.Proxy.LdapConfigurations.{
  respond, with_body, read_body, add_ldap_configuration, get_ldap_configuration,
  delete_ldap_configuration, update_ldap_configuration,
}

module _ (env : Env) {P : ℕ → Type 0} (own : (n : ℕ) → is_own n ≡ true → P n) where
  open env use {World}

  respond-Answers :
      (m : Exec World Reply)
      → Returns OwnReply m
      → Answers P false (λ _. true) (call m >>= respond env)
  unfolding respond
  respond-Answers m km =
      Answers-returned m (respond env) km
        (λ reply h. process_status_codes-Answers env reply.0 reply.1 (own reply.0 h))

  read_body-Answers :
      (text : String) (helper : LdapConfiguration → Exec World Reply) (body : Result String)
      → ((cfg : LdapConfiguration) → Returns OwnReply (helper cfg))
      → Answers P false (λ _. true) (read_body env text helper body)
  unfolding read_body is_own
  read_body-Answers text helper (ok body) kh = given (env.ldap_json.unmarshal body)
    where
      given :
          (r : Result LdapConfiguration) → Answers P false (λ _. true) (with_body env text helper r)
      given (ok cfg) = respond-Answers (helper cfg) (kh cfg)
      given (err e) = server_error-Answers env _ (own 500 refl)
  read_body-Answers text helper (err e) kh = server_error-Answers env _ (own 500 refl)

  pub add_ldap_configuration-Answers :
      (req : Request) → Answers P false (λ _. true) (add_ldap_configuration env req)
  unfolding add_ldap_configuration
  add_ldap_configuration-Answers req =
      read_body-Answers _ (add_ldap_configuration_helper env) req.body
        (add_ldap_configuration_helper-Own env)

  pub get_ldap_configuration-Answers :
      (req : Request) → Answers P false (λ _. true) (get_ldap_configuration env req)
  unfolding get_ldap_configuration
  get_ldap_configuration-Answers req =
      respond-Answers (get_ldap_configuration_helper env) (get_ldap_configuration_helper-Own env)

  pub delete_ldap_configuration-Answers :
      (req : Request) → Answers P false (λ _. true) (delete_ldap_configuration env req)
  unfolding delete_ldap_configuration
  delete_ldap_configuration-Answers req =
      respond-Answers (delete_ldap_configuration_helper env)
        (delete_ldap_configuration_helper-Own env)

  pub update_ldap_configuration-Answers :
      (req : Request) → Answers P false (λ _. true) (update_ldap_configuration env req)
  unfolding update_ldap_configuration
  update_ldap_configuration-Answers req =
      read_body-Answers _ (update_ldap_configuration_helper env) req.body
        (update_ldap_configuration_helper-Own env)
