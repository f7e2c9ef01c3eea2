-- ===== src/Db/LocalUsers.antt =====
-- db/local.go: the local users in the store. A function that changes the user that it is given
-- returns the changed user.
pub mod Failing
pub mod Adding
pub mod Removing
pub mod Racing
pub mod Preserving
use auth_proxy.Prelude.{Bool, ◌||◌, String, List, [], ◌∷◌, ◌==◌, if◌then◌else◌}
use auth_proxy.Errors.{
  Error, sentinel, errorf, is_key_not_found, key_exists, illegal_operation, Result, ok, err,
}
use auth_proxy.Exec.{Exec, pure, throw, lift, attempt, ◌>>=◌, ◌>>◌}
use auth_proxy.Text.{is_empty}
use auth_proxy.Types.{LocalUser, role_string, admin, ops}
use auth_proxy.Driver.{StateDriver, unmarshal_all, get_state_driver}
use auth_proxy.Env.{Env}
use auth_proxy.Crypto.{gen_password_hash}
use auth_proxy.Db.Keys.{get_path, root_local_users, local_user_key}
use auth_proxy.Db.Authorizations.{delete_by_principal}

module _ (env : Env) where
  open env use {World, state_driver, local_user_json}

  users_read : Result (List String) → Exec World (List LocalUser)
  users_read (ok raw_data) = lift (unmarshal_all local_user_json raw_data)
  users_read (err e) =
      if is_key_not_found e then pure [] else throw (errorf "Couldn't fetch users from data store")

  -- `GetLocalUsers`
  unfoldable pub get_local_users : Exec World (List LocalUser)
  unfolding users_read get_state_driver
  get_local_users = do
    state_drv ← get_state_driver state_driver
    r ← attempt (state_drv.read_all (get_path (root_local_users ∷ [])))
    users_read r

  user_parsed : Result LocalUser → Exec World LocalUser
  user_parsed (ok user) = pure user
  user_parsed (err e) = throw (errorf "Failed to unmarshal local user %q info %#v")

  user_read : Result String → Exec World LocalUser
  unfolding user_parsed
  user_read (ok raw_data) = user_parsed (local_user_json.unmarshal raw_data)
  user_read (err e) =
      if is_key_not_found e
      then throw e
      else throw (errorf "Failed to read local user %q data from store: %#v")

  -- `GetLocalUser`
  unfoldable pub get_local_user : String → Exec World LocalUser
  unfolding user_read get_state_driver
  get_local_user username = do
    state_drv ← get_state_driver state_driver
    r ← attempt (state_drv.read (local_user_key username))
    user_read r

  user_marshaled : Result String → Exec World String
  user_marshaled (ok val) = pure val
  user_marshaled (err e) = throw (errorf "Failed to marshal user %#v: %#v")

  written : Result (Unit {0}) → Exec World (Unit {0})
  written (ok _) = pure tt
  written (err e) = throw (errorf "Failed to write local user info. to data store: %#v")

  -- The common end of `UpdateLocalUser` and `AddLocalUser`: the raw password is never stored, and
  -- the hash is not shown to the caller.
  unfoldable pub store_user : StateDriver World → String → LocalUser → Exec World LocalUser
  unfolding user_marshaled written
  store_user state_drv key user = do
    let stored = record user { password = "" }
    val ← user_marshaled (local_user_json.marshal stored)
    r ← attempt (state_drv.write key val)
    written r
    pure (record stored { password_hash = "" })

  -- The hash is renewed only if a password is given.
  unfoldable pub rehash : LocalUser → Exec World LocalUser
  rehash user = if is_empty user.password then pure user else do
    hash ← gen_password_hash env user.password
    pure (record user { password_hash = hash })

  update_found : StateDriver World → String → LocalUser → Result String → Exec World LocalUser
  update_found state_drv key user (ok _) = do hashed ← rehash user; store_user state_drv key hashed
  update_found state_drv key user (err e) =
      if is_key_not_found e then throw e else throw (errorf "Couldn't update user information: %q")

  -- `UpdateLocalUser`
  unfoldable pub update_local_user : String → LocalUser → Exec World LocalUser
  unfolding update_found get_state_driver
  update_local_user username user = do
    state_drv ← get_state_driver state_driver
    r ← attempt (state_drv.read (local_user_key username))
    update_found state_drv (local_user_key username) user r

  user_cleared : Result (Unit {0}) → Exec World (Unit {0})
  user_cleared (ok _) = pure tt
  user_cleared (err e) = throw (errorf "Failed to clear %q from store: %#v")

  -- `DeleteLocalUser`
  unfoldable pub delete_local_user : String → Exec World (Unit {0})
  unfolding user_cleared get_state_driver role_string
  delete_local_user username =
      if username == role_string admin || username == role_string ops
      then throw (sentinel illegal_operation)
      else do
        state_drv ← get_state_driver state_driver
        state_drv.read (local_user_key username)
        delete_by_principal env username
        r ← attempt (state_drv.clear (local_user_key username))
        user_cleared r

  pub add_missing : StateDriver World → LocalUser → Result String → Exec World LocalUser
  add_missing state_drv user (ok _) = throw (sentinel key_exists)
  add_missing state_drv user (err e) =
      if is_key_not_found e
      then (do
        hash ← gen_password_hash env user.password
        store_user state_drv (local_user_key user.username) (record user { password_hash = hash }))
      else throw e

  -- `AddLocalUser`
  unfoldable pub add_local_user : LocalUser → Exec World LocalUser
  unfolding add_missing get_state_driver
  add_local_user user = do
    state_drv ← get_state_driver state_driver
    r ← attempt (state_drv.read (local_user_key user.username))
    add_missing state_drv user r
