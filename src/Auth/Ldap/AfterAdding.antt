-- ===== src/Auth/Ldap/AfterAdding.antt =====
-- LDAP authentication after a configuration was stored.
use auth_proxy.Prelude.{◌≡◌, refl, ◌⊎◌, inl, inr, ℕ, String, Option, some}
use auth_proxy.Errors.{Error, ok, err}
use auth_proxy.Types.{LdapConfiguration}
use auth_proxy.Driver.{StateDriver}
use auth_proxy.Driver.Laws.{IsStore}
use auth_proxy.Env.{Env}
use auth_proxy.Crypto.{decrypt}
use auth_proxy.Crypto.Secrets.{KeepsSecrets, decrypt-encrypt}
use auth_proxy.Db.LdapConfigurations.{ldap_key, add_ldap_configuration}
use auth_proxy.Db.LdapConfigurations.Adding.{
  StoredConfiguration, add_ldap_configuration-StoredConfiguration, get_ldap_configuration-found,
}
use auth_proxy.Auth.Ldap.{Ldap, manager_authenticate, ldap_authenticate}

module _ (env : Env) (drv : StateDriver env.World) (installed : env.state_driver ≡ some drv)
    (view : env.World → String → Option String) (store : IsStore drv view)
    (secrets : KeepsSecrets env) (ldap : Ldap env.World) where
  open env use {World}

  -- After a successful `AddLdapConfiguration`, `Authenticate` of the package `ldap` uses the very
  -- configuration that was given, with its password in clear, unless reading the store fails; the store
  -- keeps its laws, what was encrypted can be decrypted, and the stored configuration is parsed as it
  -- was printed.
  pub ldap_authenticate-add_ldap_configuration :
      (cfg u : LdapConfiguration) (w w' : World)
      → ((secret v : String)
          → env.ldap_json.marshal (record cfg { service_account_password = secret }) ≡ ok v
          → env.ldap_json.unmarshal v ≡ ok (record cfg { service_account_password = secret }))
      → add_ldap_configuration env cfg w ≡ (ok u, w')
      → (fuel : ℕ) (name password : String)
      → ((w'' : World) × (ldap_authenticate env ldap fuel name password w'
            ≡ manager_authenticate ldap cfg fuel name password w''))
        ⊎ ((e : Error) × ((drv.read ldap_key w').0 ≡ err e))
  unfolding ldap_authenticate
  ldap_authenticate-add_ldap_configuration cfg u w w' json added fuel name password =
      let now : StoredConfiguration env drv installed view store cfg w w' =
        add_ldap_configuration-StoredConfiguration env drv installed view store cfg u w w' added in
      let kept = record cfg { service_account_password = now.secret } in
      elim (get_ldap_configuration-found env drv installed view store kept now.value w' now.found
        (json now.secret now.value now.printed)) [
          | inr failed ↦ inr failed
          | inl got ↦
              let w₁ : World = (drv.read ldap_key w').1 in
              let clear : (decrypt env now.secret w₁).0 ≡ ok cfg.service_account_password =
                decrypt-encrypt env secrets cfg.service_account_password now.secret w w₁
                  now.encrypted in
              inl ((decrypt env now.secret w₁).1, rw (got, clear) refl)
        ]
