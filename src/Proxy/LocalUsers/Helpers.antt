-- ===== src/Proxy/LocalUsers/Helpers.antt =====
-- The helpers of proxy/helpers.go for local users.
pub mod Statuses
pub mod Blanked
pub mod Preserving
use auth_proxy.Prelude.{ℕ, not, ◌||◌, String, List, map, eq_bool, if◌then◌else◌}
use auth_proxy.Errors.{
  is_key_not_found, is_key_exists, is_illegal_operation, error_text, Result, ok, err,
}
use auth_proxy.Exec.{Exec, pure, attempt, ◌>>=◌}
use auth_proxy.Text.{is_empty}
use auth_proxy.Text.Patterns.{matches_username}
use auth_proxy.Types.{LocalUser}
use auth_proxy.Env.{Env}
use auth_proxy.Db.LocalUsers.{
  get_local_users, get_local_user, update_local_user, delete_local_user, add_local_user,
}

-- A status code and the response's text.
abbrev pub Reply : Type 0
Reply = ℕ × String

module _ (env : Env) where
  open env use {World, local_user_json, local_users_json}

  -- A user as JSON, without password and hash.
  abbrev hidden : LocalUser → LocalUser
  hidden user = record user { password = ""; password_hash = "" }

  shown : Result String → Reply
  shown (ok text) = (200, text)
  shown (err e) = (500, error_text e)

  user_got : Result LocalUser → Reply
  unfolding shown
  user_got (ok user) = shown (local_user_json.marshal (hidden user))
  user_got (err e) =
      if is_key_not_found e then (404, "") else (500, "Failed to fetch local user %q")

  -- `getLocalUserHelper`
  unfoldable pub get_local_user_helper : String → Exec World Reply
  unfolding user_got
  get_local_user_helper username = do r ← attempt (get_local_user env username); pure (user_got r)

  -- The fields of a user that are listed.
  abbrev summary : LocalUser → LocalUser
  summary user = record {
    username = user.username;
    password = "";
    first_name = user.first_name;
    last_name = user.last_name;
    disable = user.disable;
    password_hash = "";
  }

  users_marshaled : Result String → Reply
  users_marshaled (ok text) = (200, text)
  users_marshaled (err e) = (500, "Failed to fetch local users")

  users_got : Result (List LocalUser) → Reply
  unfolding users_marshaled
  users_got (ok users) = users_marshaled (local_users_json.marshal (map summary users))
  users_got (err e) = (500, error_text e)

  -- `getLocalUsersHelper`
  unfoldable pub get_local_users_helper : Exec World Reply
  unfolding users_got
  get_local_users_helper = do r ← attempt (get_local_users env); pure (users_got r)

  abbrev or_kept : String → String → String
  or_kept given kept = if is_empty given then kept else given

  -- The user that `updateLocalUserInfo` stores: what is given is taken over, and `Disable` is taken
  -- over where it differs.
  unfoldable pub merged_user : LocalUser → LocalUser → LocalUser
  merged_user update_req actual = record {
    username = actual.username;
    password = or_kept update_req.password "";
    first_name = or_kept update_req.first_name actual.first_name;
    last_name = or_kept update_req.last_name actual.last_name;
    disable =
        if eq_bool actual.disable update_req.disable then actual.disable else update_req.disable;
    password_hash = actual.password_hash;
  }

  user_updated : Result LocalUser → Reply
  unfolding shown
  user_updated (ok user) = shown (local_user_json.marshal (hidden user))
  user_updated (err e) =
      if is_key_not_found e
      then (404, "")
      else if is_illegal_operation e
      then (400, "Cannot update built-in user %q")
      else (500, "Failed to update local user %q")

  -- `updateLocalUserInfo`
  unfoldable pub update_local_user_info : String → LocalUser → LocalUser → Exec World Reply
  unfolding user_updated
  update_local_user_info username update_req actual = do
    r ← attempt (update_local_user env username (merged_user update_req actual))
    pure (user_updated r)

  user_to_update : String → LocalUser → Result LocalUser → Exec World Reply
  user_to_update username update_req (ok actual) = update_local_user_info username update_req actual
  user_to_update username update_req (err e) =
      pure (if is_key_not_found e then (404, "") else (500, "Failed to update local user %q"))

  -- `updateLocalUserHelper`
  unfoldable pub update_local_user_helper : String → LocalUser → Exec World Reply
  unfolding user_to_update
  update_local_user_helper username update_req =
      if is_empty username
      then pure (400, "Empty username")
      else do r ← attempt (get_local_user env username); user_to_update username update_req r

  user_deleted : Result (Unit {0}) → Reply
  user_deleted (ok _) = (204, "")
  user_deleted (err e) =
      if is_key_not_found e
      then (404, "")
      else if is_illegal_operation e
      then (400, "Cannot delete built-in user %q")
      else (500, "Failed to delete local user %q from the system")

  -- `deleteLocalUserHelper`
  unfoldable pub delete_local_user_helper : String → Exec World Reply
  unfolding user_deleted
  delete_local_user_helper username =
      if is_empty username
      then pure (400, "Empty username")
      else do r ← attempt (delete_local_user env username); pure (user_deleted r)

  created : Result String → Reply
  created (ok text) = (201, text)
  created (err e) = (500, "Failed to add local user %q to the system")

  user_added : Result LocalUser → Reply
  unfolding created
  user_added (ok user) = created (local_user_json.marshal (hidden user))
  user_added (err e) =
      if is_key_exists e
      then (400, "User %q exists already")
      else (500, "Failed to add local user %q to the system")

  -- `addLocalUserHelper`
  unfoldable pub add_local_user_helper : LocalUser → Exec World Reply
  unfolding user_added
  add_local_user_helper user =
      if is_empty user.username || is_empty user.password
      then pure (400, "Username/Password is empty")
      else if not (matches_username user.username)
      then pure (400, "Invalid username. Only aplha-numeric and [-_.@] are allowed")
      else do r ← attempt (add_local_user env user); pure (user_added r)
