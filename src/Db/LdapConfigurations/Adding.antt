-- ===== src/Db/LdapConfigurations/Adding.antt =====
-- `AddLdapConfiguration` and `GetLdapConfiguration` over a store that keeps its laws.
use auth_proxy.Prelude.{◌≡◌, refl, ap, subst, ◌⊎◌, inl, inr, String, Option, some}
use auth_proxy.Errors.{Error, ok, err, Result-cases}
use auth_proxy.Types.{LdapConfiguration}
use auth_proxy.Driver.{StateDriver, get_state_driver-some}
use auth_proxy.Driver.Laws.{IsStore}
use auth_proxy.Env.{Env}
use auth_proxy.Crypto.{encrypt}
use auth_proxy.Db.LdapConfigurations.{
  or_message, ldap_key, configuration_read, read_configuration, store_configuration,
  with_encrypted_password, get_ldap_configuration, add_ldap_configuration,
}

module _ (env : Env) (drv : StateDriver env.World) (installed : env.state_driver ≡ some drv)
    (view : env.World → String → Option String) (store : IsStore drv view) where
  open env use {World}

  -- What is in the store once a configuration was added in `w`.
  pub record StoredConfiguration (cfg : LdapConfiguration) (w w' : World) : Type 0 where
    pub secret : String
    pub encrypted : (encrypt env cfg.service_account_password w).0 ≡ ok secret
    pub value : String
    pub printed :
        env.ldap_json.marshal (record cfg { service_account_password = secret }) ≡ ok value
    pub found : view w' ldap_key ≡ some value

  pub add_ldap_configuration-StoredConfiguration :
      (cfg u : LdapConfiguration) (w w' : World)
      → add_ldap_configuration env cfg w ≡ (ok u, w')
      → StoredConfiguration cfg w w'
  unfolding add_ldap_configuration with_encrypted_password store_configuration or_message
  add_ldap_configuration-StoredConfiguration cfg u w w' h =
      let got = get_state_driver-some env.state_driver drv w installed in
      let password : String = cfg.service_account_password in
      elim (Result-cases (encrypt env password w).0) [
        | inr (e, bad) ↦ cc (rw (got, bad) at h)
        | inl (secret, good) ↦
            elim (Result-cases
              (env.ldap_json.marshal (record cfg { service_account_password = secret }))) [
                | inr (e, bad) ↦ cc (rw (got, good, bad) at h)
                | inl (value, printed) ↦
                    let w₁ : World = (encrypt env password w).1 in
                    elim (Result-cases (drv.write ldap_key value w₁).0) [
                      | inr (e, bad) ↦ cc (rw (got, good, printed, bad) at h)
                      | inl (x, done) ↦ record {
                        secret = secret;
                        encrypted = good;
                        value = value;
                        printed = printed;
                        found =
                            let end : (drv.write ldap_key value w₁).1 ≡ w' =
                              ap (λ r. r.1) (rw (got, good, printed, done) at h) in
                            subst (λ y. view y ldap_key ≡ some value) end
                              (store.write_ok ldap_key value w₁ done);
                      }
                    ]
              ]
      ]

  -- The configuration that is there is read, or the read failed.
  pub get_ldap_configuration-found :
      (cfg : LdapConfiguration) (value : String) (w : World)
      → view w ldap_key ≡ some value
      → env.ldap_json.unmarshal value ≡ ok cfg
      → (get_ldap_configuration env w ≡ (ok cfg, (drv.read ldap_key w).1))
        ⊎ ((e : Error) × ((drv.read ldap_key w).0 ≡ err e))
  unfolding get_ldap_configuration read_configuration configuration_read or_message
  get_ldap_configuration-found cfg value w held parsed =
      let got = get_state_driver-some env.state_driver drv w installed in
      elim (Result-cases (drv.read ldap_key w).0) [
        | inr failed ↦ inr failed
        | inl (v, done) ↦
            let same : v ≡ value = cc (store.read_ok ldap_key v w done, held) in
            inl (rw (got, done) (rw same (rw parsed refl)))
      ]
