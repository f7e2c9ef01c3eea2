-- ===== src/Tests/SecretWitnesses.antt =====
-- The theorems about a stored LDAP configuration and about two interleaved calls at the deployment of
-- the tests.
use auth_proxy.Prelude.{true, false, ◌≡◌, ◌⊎◌, refl, ap, String, append, [], ◌∷◌}
use auth_proxy.Errors.{Error, ok, err}
use auth_proxy.Text.{is_empty, is_space, trim_prefix, strip_prefix}
use auth_proxy.Text.Splitting.{char-append}
use auth_proxy.Types.{LdapConfiguration}
use auth_proxy.Globals
use auth_proxy.Env.{Env}
use auth_proxy.Crypto.{encrypt, get_private_key}
use auth_proxy.Crypto.Secrets.{KeepsSecrets}
use auth_proxy.Driver.{get_state_driver}
use auth_proxy.Db.Keys.{local_user_key, get_path}
use auth_proxy.Db.LocalUsers.Racing.{Answering, Printing, Overwritten, add_local_user-Overwritten}
use auth_proxy.Db.LdapConfigurations.{
  ldap_key, add_ldap_configuration, with_encrypted_password, store_configuration,
}
use auth_proxy.Auth.Ldap.{manager_authenticate, ldap_authenticate}
use auth_proxy.Auth.Ldap.AfterAdding.{ldap_authenticate-add_ldap_configuration}
use auth_proxy.Tests.Store.{Entries, find, memory, memory-IsStore}
use auth_proxy.Tests.Deployment.{deployment, alice, entries}
use auth_proxy.Tests.Clients.{friendly}

abbrev stored : LdapConfiguration
stored = record {
  server = "ad";
  port = 389;
  base_dn = "ops";
  service_account_dn = "service";
  service_account_password = "secret";
  start_tls = true;
  insecure_skip_verify = false;
  tls_cert_issued_to = "ad";
}

-- The deployment with the path of a key, a codec for configurations that differ in the password, and
-- an encoding that marks a text.
abbrev secretive : Env
secretive = record deployment {
  global = ("tls_key_file", "local.key") ∷ [];
  ldap_json = record {
    marshal = λ c. ok c.service_account_password;
    unmarshal = λ s. ok (record stored { service_account_password = s });
  };
  base64_encode = λ s. append "b" s;
  base64_decode = λ s. ok (trim_prefix s "b");
}

unmarked : (c : String) → trim_prefix (append "b" c) "b" ≡ c
unfolding trim_prefix strip_prefix
unmarked c = rw (char-append _ c) refl

marked-full : (c : String) → is_empty (append "b" c) ≡ false
unfolding is_empty is_space
marked-full c = rw (char-append _ c) refl

secretive-KeepsSecrets : KeepsSecrets secretive
secretive-KeepsSecrets = record {
  same_file = λ name w w'. refl;
  decrypts = λ k p c w w' h. ap (λ r. r) (cc h);
  decodes = λ c. ap (λ s. ok s) (unmarked c);
  not_blank = λ k p c w h. marked-full c;
}

ldap_authenticate-add_ldap_configuration_example :
    ((w : Entries) × (ldap_authenticate secretive friendly 5 "root" "secret"
          (add_ldap_configuration secretive stored entries).1
        ≡ manager_authenticate friendly stored 5 "root" "secret" w))
    ⊎ ((e : Error) × ((memory.read ldap_key (add_ldap_configuration secretive stored entries).1).0
          ≡ err e))
unfolding add_ldap_configuration with_encrypted_password store_configuration get_state_driver
    encrypt get_private_key is_empty is_space Globals.get
ldap_authenticate-add_ldap_configuration_example =
    ldap_authenticate-add_ldap_configuration secretive memory refl find memory-IsStore
      secretive-KeepsSecrets friendly stored
      (record stored { service_account_password = "bsecret" }) entries
      (add_ldap_configuration secretive stored entries).1 (λ secret v h. cc h) refl 5 "root"
      "secret"

memory-Answering : Answering memory find
memory-Answering = record { reports = λ k w h. rw h refl; writes = λ k v w. refl }

deployment-Printing : Printing deployment
deployment-Printing = record {
  hashes = λ p w. (append "hash of " p, refl);
  prints = λ user. (user.password_hash, refl);
}

add_local_user-Overwritten_example :
    Overwritten deployment memory refl find memory-IsStore memory-Answering deployment-Printing
      alice
      (record alice { password = "other" })
      entries
unfolding find local_user_key get_path
add_local_user-Overwritten_example =
    add_local_user-Overwritten deployment memory refl find memory-IsStore memory-Answering
      deployment-Printing alice (record alice { password = "other" }) entries refl refl
