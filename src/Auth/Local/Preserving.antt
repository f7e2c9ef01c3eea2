-- ===== src/Auth/Local/Preserving.antt =====
-- Checking a local user's password, and the entry of the built-in administrator.
use auth_proxy.Prelude.{String, [], ◌∷◌}
use auth_proxy.Errors.{Result, ok, err, is_key_not_found}
use auth_proxy.Exec.Preserves.{
  Preserves, Preserves-pure, Preserves-throw, Preserves-attempt, Preserves-if, Preserves-bind,
}
use auth_proxy.Types.{LocalUser}
use auth_proxy.Env.{Env}
use auth_proxy.Env.Sparing.{Sparing}
use auth_proxy.Crypto.{validate_password}
use auth_proxy.Db.LocalUsers.Preserving.{get_local_user-Preserves}
use auth_proxy.Auth.Local.{user_found, authenticate_locally}

module _ (env : Env) {I : env.World → Type 0} (s : Sparing env I) where
  user_found-Preserves :
      (password : String) (r : Result LocalUser) → Preserves I (user_found env password r)
  unfolding user_found
  user_found-Preserves password (ok user) = Preserves-if user.disable (Preserves-throw _) (
      Preserves-if (validate_password env password user.password_hash)
        (Preserves-pure (user.username ∷ [])) (Preserves-throw _))
  user_found-Preserves password (err e) =
      Preserves-if (is_key_not_found e) (Preserves-throw _) (Preserves-throw e)

  pub authenticate_locally-Preserves :
      (name password : String) → Preserves I (authenticate_locally env name password)
  unfolding authenticate_locally
  authenticate_locally-Preserves name password =
      Preserves-bind (Preserves-attempt (get_local_user-Preserves env s name))
        (user_found-Preserves password)
