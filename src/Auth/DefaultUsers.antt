-- ===== src/Auth/DefaultUsers.antt =====
-- `AddDefaultUsers` of auth/auth.go.
use auth_proxy.Prelude.{true, false, List, [], ◌∷◌, ◌==◌, if◌then◌else◌}
use auth_proxy.Errors.{is_key_exists, is_panic, Result, ok, err}
use auth_proxy.Exec.{Exec, pure, throw, attempt, ◌>>=◌, ◌>>◌}
use auth_proxy.Types.{Authorization, LocalUser, RoleType, admin, ops, role_string}
use auth_proxy.Env.{Env}
use auth_proxy.Db.LocalUsers.{add_local_user}
use auth_proxy.Auth.Authorizations.{add_role_authorization}

-- The pre-defined user of a role, whose name and password are the role's name.
unfoldable pub default_user : RoleType → LocalUser
unfolding role_string
default_user r = record {
  username = role_string r;
  password = role_string r;
  first_name = "";
  last_name = "";
  disable = false;
  password_hash = "";
}

module _ (env : Env) where
  open env use {World}

  -- The error of `addRoleAuthorization` is dropped.
  dropped : Result Authorization → Exec World (Unit {0})
  dropped (ok _) = pure tt
  dropped (err e) = if is_panic e then throw e else pure tt

  user_added : RoleType → Result LocalUser → Exec World (Unit {0})
  unfolding dropped role_string
  user_added r (ok _) =
      if role_string r == role_string admin
      then (do a ← attempt (add_role_authorization env (role_string admin) true admin); dropped a)
      else pure tt
  user_added r (err e) = if is_key_exists e then pure tt else throw e

  -- The loop of `AddDefaultUsers`.
  unfoldable pub add_users : List RoleType → Exec World (Unit {0})
  unfolding user_added
  add_users [] = pure tt
  add_users (r ∷ roles) = do
    added ← attempt (add_local_user env (default_user r))
    user_added r added
    add_users roles

  -- `AddDefaultUsers`
  unfoldable pub add_default_users : Exec World (Unit {0})
  add_default_users = add_users (admin ∷ ops ∷ [])
