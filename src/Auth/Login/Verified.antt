-- ===== src/Auth/Login/Verified.antt =====
-- Whom `Authenticate` of auth/auth.go gives a token.
use auth_proxy.Prelude.{ℕ, true, false, Bool-cases, ◌≡◌, ◌⊎◌, ap, refl, String, List, inl, inr}
use auth_proxy.Errors.{
  Error, sentinel, user_not_found, is_key_not_found, is_denied_locally, is_panic, Result, ok, err,
}
use auth_proxy.Exec.{Exec, throw}
use auth_proxy.Exec.Succeeds.{>>=-ok}
use auth_proxy.Exec.Yields.{Yields, Yields-throw, Yields-if}
use auth_proxy.Types.{LocalUser, LdapConfiguration}
use auth_proxy.Env.{Env}
use auth_proxy.Crypto.{decrypt, validate_password}
use auth_proxy.Db.LocalUsers.{get_local_user}
use auth_proxy.Db.LdapConfigurations.{get_ldap_configuration}
use auth_proxy.Auth.Local.{user_found, authenticate_locally}
use auth_proxy.Auth.Ldap.{Ldap, ldap_authenticate}
use auth_proxy.Auth.Ldap.Success.{Authenticated, manager_authenticate-Authenticated}
use auth_proxy.Auth.Login.{local_result, ldap_result, authenticate}

module _ (env : Env) (ldap : Ldap env.World) (username password : String) where
  open env use {World}

  -- The user is in the store, enabled, and the password fits the hash.
  pub record IsLocal (w : World) : Type 0 where
    pub user : LocalUser
    pub stored : (get_local_user env username w).0 ≡ ok user
    pub enabled : user.disable ≡ false
    pub fits : validate_password env password user.password_hash ≡ true

  -- The LDAP configuration was read from the store and its password decrypted, and the server of this
  -- configuration knows the user by the name and takes the password.
  pub record IsRemote (fuel : ℕ) (w : World) : Type 0 where
    pub stored : LdapConfiguration
    pub w_read : World
    pub read : get_ldap_configuration env w ≡ (ok stored, w_read)
    pub plain : String
    pub w_decrypted : World
    pub decrypted : decrypt env stored.service_account_password w_read ≡ (ok plain, w_decrypted)
    pub answer : String × List String
    pub w_closed : World
    pub authenticated :
        Authenticated ldap
          (record stored { service_account_password = plain })
          fuel
          username
          password
          answer
          w_decrypted
          w_closed

  -- The condition of a result that does not depend on it.
  always : {A : Type 0} (P : Type 0) (m : Exec World A) → P → Yields (λ _. P) m
  always P m p = record { at = λ w a h. p }

  user_found-IsLocal :
      (w : World) (r : Result LocalUser)
      → (get_local_user env username w).0 ≡ r
      → Yields (λ _. IsLocal w) (user_found env password r)
  unfolding user_found
  user_found-IsLocal w (err e) h =
      Yields-if (is_key_not_found e) (throw (sentinel user_not_found)) (throw e)
        (λ _. Yields-throw (sentinel user_not_found)) (λ _. Yields-throw e)
  user_found-IsLocal w (ok user) h =
      Yields-if user.disable _ _ (λ _. Yields-throw _)
        (λ enabled.
          Yields-if (validate_password env password user.password_hash) _ _
            (λ fits.
              always (IsLocal w) _
                (record { user = user; stored = h; enabled = enabled; fits = fits }))
            (λ _. Yields-throw _))

  authenticate_locally-IsLocal :
      (w : World) (principals : List String)
      → (authenticate_locally env username password w).0 ≡ ok principals
      → IsLocal w
  unfolding authenticate_locally
  authenticate_locally-IsLocal w principals h =
      (user_found-IsLocal w (get_local_user env username w).0 refl).at
        (get_local_user env username w).1 principals h

  ldap_authenticate-IsRemote :
      (fuel : ℕ) (w : World) (answer : String × List String) (w' : World)
      → ldap_authenticate env ldap fuel username password w ≡ (ok answer, w')
      → IsRemote fuel w
  unfolding ldap_authenticate
  ldap_authenticate-IsRemote fuel w answer w' h =
      let (cfg, w1, read, h1) = >>=-ok (get_ldap_configuration env) _ w answer w' h in
      let (plain, w2, decrypted, h2) =
        >>=-ok (decrypt env cfg.service_account_password) _ w1 answer w' h1 in
      record {
        stored = cfg;
        w_read = w1;
        read = read;
        plain = plain;
        w_decrypted = w2;
        decrypted = decrypted;
        answer = answer;
        w_closed = w';
        authenticated =
            manager_authenticate-Authenticated ldap
              (record cfg { service_account_password = plain }) fuel username password w2 answer w'
              h2;
      }

  module _ (fuel : ℕ) where
    abbrev remotely : String → String → Exec World (String × List String)
    remotely = ldap_authenticate env ldap fuel

    ldap_result-IsRemote :
        (e : Error) (w : World) (r : Result (String × List String))
        → (remotely username password w).0 ≡ r
        → Yields (λ _. IsRemote fuel w) (ldap_result env remotely e r)
    unfolding ldap_result
    ldap_result-IsRemote e w (ok a) h =
        let end = (remotely username password w).1 in
        always (IsRemote fuel w) _ (ldap_authenticate-IsRemote fuel w a end (ap (λ r. (r, end)) h))
    ldap_result-IsRemote e w (err e') h =
        Yields-if (is_panic e') _ _ (λ _. Yields-throw e') (λ _. Yields-throw e)

    local_result-verified :
        (w w' : World) (r : Result (List String))
        → (authenticate_locally env username password w).0 ≡ r
        → (token : String) → (local_result env remotely username password r w').0 ≡ ok token
        → IsLocal w ⊎ IsRemote fuel w'
    unfolding local_result
    local_result-verified w w' (ok principals) h token k =
        inl (authenticate_locally-IsLocal w principals h)
    local_result-verified w w' (err e) h token k = elim (Bool-cases (is_denied_locally e)) [
      | inr other ↦ cc (rw other at k)
      | inl denied ↦ inr (
          (ldap_result-IsRemote e w' (remotely username password w').0 refl).at
            (remotely username password w').1 token (rw denied at k))
    ]

    -- A token is given only for a password that was checked: the name is a stored, enabled user's and
    -- the password fits the stored hash; or the LDAP configuration was read from the store and its
    -- password decrypted, and the server of this very configuration was dialled, over TLS if it says
    -- so, found exactly one entry for the name, and took the password for that entry.
    pub authenticate-verified :
        (token : String) (w : World)
        → (authenticate env remotely username password w).0 ≡ ok token
        → IsLocal w ⊎ IsRemote fuel (authenticate_locally env username password w).1
    unfolding authenticate
    authenticate-verified token w h =
        local_result-verified w (authenticate_locally env username password w).1
          (authenticate_locally env username password w).0 refl token h
