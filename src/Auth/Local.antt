-- ===== src/Auth/Local.antt =====
-- auth/local/local.go: authentication against the local users.
pub mod AfterAdding
pub mod Preserving
use auth_proxy.Prelude.{Bool, String, List, [], ◌∷◌, if◌then◌else◌}
use auth_proxy.Errors.{sentinel, is_key_not_found, user_not_found, access_denied, Result, ok, err}
use auth_proxy.Exec.{Exec, pure, throw, attempt, ◌>>=◌}
use auth_proxy.Types.{LocalUser}
use auth_proxy.Env.{Env}
use auth_proxy.Crypto.{validate_password}
use auth_proxy.Db.LocalUsers.{get_local_user}

module _ (env : Env) where
  open env use {World}

  unfoldable pub user_found : String → Result LocalUser → Exec World (List String)
  unfolding validate_password
  user_found password (ok user) =
      if user.disable
      then throw (sentinel access_denied)
      else if validate_password env password user.password_hash
      then pure (user.username ∷ [])
      else throw (sentinel access_denied)
  user_found password (err e) =
      if is_key_not_found e then throw (sentinel user_not_found) else throw e

  -- `Authenticate` of the package `local`
  unfoldable pub authenticate_locally : String → String → Exec World (List String)
  unfolding user_found
  authenticate_locally username password = do
    r ← attempt (get_local_user env username)
    user_found password r
