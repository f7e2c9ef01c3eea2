-- ===== src/Proxy/LocalUsers/Helpers/Preserving.antt =====
-- The helpers for local users, and the entry of the built-in administrator.
use auth_proxy.Prelude.{◌≡◌, ◌||◌, not, true, String}
use auth_proxy.Errors.{Result, ok, err}
use auth_proxy.Exec.Preserves.{
  Preserves, Preserves-pure, Preserves-attempt, Preserves-if, Preserves-bind,
}
use auth_proxy.Text.{is_empty}
use auth_proxy.Text.Patterns.{matches_username}
use auth_proxy.Text.Splitting.{is_free}
use auth_proxy.Types.{LocalUser}
use auth_proxy.Env.{Env}
use auth_proxy.Env.Sparing.{Sparing}
use auth_proxy.Db.LocalUsers.Preserving.{
  get_local_users-Preserves, get_local_user-Preserves, update_local_user-Preserves,
  delete_local_user-Preserves, add_local_user-Preserves,
}
use auth_proxy.Proxy.LocalUsers.Helpers.{
  user_got, get_local_user_helper, users_got, get_local_users_helper, merged_user, user_updated,
  update_local_user_info, user_to_update, update_local_user_helper, user_deleted,
  delete_local_user_helper, user_added, add_local_user_helper,
}

module _ (env : Env) {I : env.World → Type 0} (s : Sparing env I) where
  pub get_local_user_helper-Preserves :
      (name : String) → Preserves I (get_local_user_helper env name)
  unfolding get_local_user_helper
  get_local_user_helper-Preserves name =
      Preserves-bind (Preserves-attempt (get_local_user-Preserves env s name))
        (λ r. Preserves-pure (user_got env r))

  pub get_local_users_helper-Preserves : Preserves I (get_local_users_helper env)
  unfolding get_local_users_helper
  get_local_users_helper-Preserves =
      Preserves-bind (Preserves-attempt (get_local_users-Preserves env s))
        (λ r. Preserves-pure (users_got env r))

  user_to_update-Preserves :
      (name : String) (given : LocalUser) (r : Result LocalUser)
      → Preserves I (user_to_update env name given r)
  unfolding user_to_update update_local_user_info
  user_to_update-Preserves name given (ok actual) =
      Preserves-bind
        (Preserves-attempt (update_local_user-Preserves env s name (merged_user env given actual)))
        (λ r. Preserves-pure (user_updated env r))
  user_to_update-Preserves name given (err e) = Preserves-pure _

  pub update_local_user_helper-Preserves :
      (name : String) (given : LocalUser) → Preserves I (update_local_user_helper env name given)
  unfolding update_local_user_helper
  update_local_user_helper-Preserves name given = Preserves-if (is_empty name) (Preserves-pure _) (
      Preserves-bind (Preserves-attempt (get_local_user-Preserves env s name))
        (user_to_update-Preserves name given))

  pub delete_local_user_helper-Preserves :
      (name : String) → is_free b'/' name ≡ true → Preserves I (delete_local_user_helper env name)
  unfolding delete_local_user_helper
  delete_local_user_helper-Preserves name free = Preserves-if (is_empty name) (Preserves-pure _) (
      Preserves-bind (Preserves-attempt (delete_local_user-Preserves env s name free))
        (λ r. Preserves-pure (user_deleted env r)))

  pub add_local_user_helper-Preserves :
      (user : LocalUser) → Preserves I (add_local_user_helper env user)
  unfolding add_local_user_helper
  add_local_user_helper-Preserves user =
      Preserves-if (is_empty user.username || is_empty user.password) (Preserves-pure _) (
        Preserves-if (not (matches_username user.username)) (Preserves-pure _) (
          Preserves-bind (Preserves-attempt (add_local_user-Preserves env s user))
            (λ r. Preserves-pure (user_added env r))))
