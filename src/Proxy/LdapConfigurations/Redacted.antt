-- ===== src/Proxy/LdapConfigurations/Redacted.antt =====
-- What the handlers of the LDAP configuration write.
use auth_proxy.Prelude.{String, ◌≡◌, ◌⊎◌, inl, inr, refl}
use auth_proxy.Errors.{error_text, Result, ok, err}
use auth_proxy.Exec.{Exec, ◌>>=◌}
use auth_proxy.Exec.Returns.{Returns}
use auth_proxy.Types.{LdapConfiguration}
use auth_proxy.Env.{Env, Request}
use auth_proxy.Proxy.Exchange.{call}
use auth_proxy.Proxy.Exchange.Writes.{Writes, Writes-returned}
use auth_proxy.Proxy.Responses.Redacted.{
  unread, unparsed_configuration, Redacted, BlankReply, server_error-Redacted,
  process_status_codes-Redacted,
}
use auth_proxy.Proxy.LocalUsers.Helpers.{Reply}
use auth_proxy.Proxy.LdapConfigurations.Helpers.{
  update_ldap_configuration_helper, delete_ldap_configuration_helper, get_ldap_configuration_helper,
  add_ldap_configuration_helper,
}
use auth_proxy.Proxy.LdapConfigurations.Helpers.Blanked.{
  update_ldap_configuration_helper-Blank, delete_ldap_configuration_helper-Blank,
  get_ldap_configuration_helper-Blank, add_ldap_configuration_helper-Blank,
}
use auth_proxy.Proxy.LdapConfigurations.{
  respond, with_body, read_body, add_ldap_configuration, get_ldap_configuration,
  delete_ldap_configuration, update_ldap_configuration,
}

module _ (env : Env) (req : Request) where
  open env use {World}

  respond-Redacted :
      (m : Exec World Reply)
      → Returns (BlankReply env req) m
      → Writes (Redacted env req) (call m >>= respond env)
  unfolding respond
  respond-Redacted m km =
      Writes-returned (Redacted env req) m (respond env) km
        (λ reply h. process_status_codes-Redacted env req reply.0 reply.1 h)

  read_body-Redacted :
      (text : String) (helper : LdapConfiguration → Exec World Reply) (body : Result String)
      → (text ≡ "Failed to unmarshal user info. from request body: ")
        ⊎ (text ≡ "Failed to unmarshal LDAP info. from request body: ")
      → req.body ≡ body
      → ((cfg : LdapConfiguration) → Returns (BlankReply env req) (helper cfg))
      → Writes (Redacted env req) (read_body env text helper body)
  unfolding read_body error_text
  read_body-Redacted text helper (ok body) known is kh = given (env.ldap_json.unmarshal body) refl
    where
      given :
          (r : Result LdapConfiguration)
          → env.ldap_json.unmarshal body ≡ r
          → Writes (Redacted env req) (with_body env text helper r)
      given (ok cfg) h = respond-Redacted (helper cfg) (kh cfg)
      given (err e) h =
          server_error-Redacted env req _ (unparsed_configuration text body e known is h)
  read_body-Redacted text helper (err e) known is kh = server_error-Redacted env req _ (unread e is)

  pub add_ldap_configuration-Redacted : Writes (Redacted env req) (add_ldap_configuration env req)
  unfolding add_ldap_configuration
  add_ldap_configuration-Redacted =
      read_body-Redacted _ (add_ldap_configuration_helper env) req.body (inr refl) refl
        (add_ldap_configuration_helper-Blank env req)

  pub get_ldap_configuration-Redacted : Writes (Redacted env req) (get_ldap_configuration env req)
  unfolding get_ldap_configuration
  get_ldap_configuration-Redacted =
      respond-Redacted (get_ldap_configuration_helper env)
        (get_ldap_configuration_helper-Blank env req)

  pub delete_ldap_configuration-Redacted :
      Writes (Redacted env req) (delete_ldap_configuration env req)
  unfolding delete_ldap_configuration
  delete_ldap_configuration-Redacted =
      respond-Redacted (delete_ldap_configuration_helper env)
        (delete_ldap_configuration_helper-Blank env req)

  pub update_ldap_configuration-Redacted :
      Writes (Redacted env req) (update_ldap_configuration env req)
  unfolding update_ldap_configuration
  update_ldap_configuration-Redacted =
      read_body-Redacted _ (update_ldap_configuration_helper env) req.body (inl refl) refl
        (update_ldap_configuration_helper-Blank env req)
