-- ===== src/Proxy/LdapConfigurations/Preserving.antt =====
-- The handlers of the LDAP configuration, and the entry of the built-in administrator.
use auth_proxy.Prelude.{ℕ, String}
use auth_proxy.Errors.{Result, ok, err}
use auth_proxy.Exec.{Exec, ◌>>=◌}
use auth_proxy.Exec.Preserves.{Preserves, Preserves-throw, Preserves-bind}
use auth_proxy.Types.{LdapConfiguration}
use auth_proxy.Env.{Env, Request}
use auth_proxy.Env.Sparing.{Sparing}
use auth_proxy.Proxy.Exchange.{call}
use auth_proxy.Proxy.Exchange.Preserving.{NoSlash, Spares, Spares-call}
use auth_proxy.Proxy.Responses.Preserving.{server_error-Spares, process_status_codes-Spares}
use auth_proxy.Proxy.LdapConfigurations.Helpers.Preserving.{
  update_ldap_configuration_helper-Preserves, delete_ldap_configuration_helper-Preserves,
  get_ldap_configuration_helper-Preserves, add_ldap_configuration_helper-Preserves,
}
use auth_proxy.Proxy.LdapConfigurations.{
  respond, with_body, read_body, add_ldap_configuration, get_ldap_configuration,
  delete_ldap_configuration, update_ldap_configuration,
}

module _ (env : Env) {I : env.World → Type 0} (s : Sparing env I) where
  open env use {World}

  respond-Spares : {m : Exec World (ℕ × String)} → Preserves I m → Spares I (call m >>= respond env)
  unfolding respond
  respond-Spares km = Preserves-bind (Spares-call I km) after
    where
      after : (r : Result (ℕ × String)) → Spares I (respond env r)
      after (ok (n, resp)) = process_status_codes-Spares env I n resp
      after (err e) = Preserves-throw e

  read_body-Spares :
      (text : String) (helper : LdapConfiguration → Exec World (ℕ × String)) (body : Result String)
      → ((cfg : LdapConfiguration) → Preserves I (helper cfg))
      → Spares I (read_body env text helper body)
  unfolding read_body with_body
  read_body-Spares text helper (ok body) kh = given (env.ldap_json.unmarshal body)
    where
      given : (r : Result LdapConfiguration) → Spares I (with_body env text helper r)
      given (ok cfg) = respond-Spares (kh cfg)
      given (err e) = server_error-Spares env I _
  read_body-Spares text helper (err e) kh = server_error-Spares env I _

  pub add_ldap_configuration-Spares :
      (req : Request) → NoSlash req → Spares I (add_ldap_configuration env req)
  unfolding add_ldap_configuration
  add_ldap_configuration-Spares req free =
      read_body-Spares _ _ req.body (add_ldap_configuration_helper-Preserves env s)

  pub get_ldap_configuration-Spares :
      (req : Request) → NoSlash req → Spares I (get_ldap_configuration env req)
  unfolding get_ldap_configuration
  get_ldap_configuration-Spares req free =
      respond-Spares (get_ldap_configuration_helper-Preserves env s)

  pub delete_ldap_configuration-Spares :
      (req : Request) → NoSlash req → Spares I (delete_ldap_configuration env req)
  unfolding delete_ldap_configuration
  delete_ldap_configuration-Spares req free =
      respond-Spares (delete_ldap_configuration_helper-Preserves env s)

  pub update_ldap_configuration-Spares :
      (req : Request) → NoSlash req → Spares I (update_ldap_configuration env req)
  unfolding update_ldap_configuration
  update_ldap_configuration-Spares req free =
      read_body-Spares _ _ req.body (update_ldap_configuration_helper-Preserves env s)
