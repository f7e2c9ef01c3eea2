-- ===== src/Proxy/LocalUsers/Helpers/Statuses.antt =====
-- The statuses of the replies about local users.
use auth_proxy.Prelude.{◌||◌, refl, not, String, List, map, arith}
use auth_proxy.Errors.{Result, ok, err}
use auth_proxy.Exec.Returns.{Returns, Returns-pure, Returns-if, Returns-attempt, Returns-mapped}
use auth_proxy.Text.{is_empty}
use auth_proxy.Text.Patterns.{matches_username}
use auth_proxy.Types.{LocalUser}
use auth_proxy.Env.{Env}
use auth_proxy.Db.LocalUsers.{
  get_local_user as fetch, get_local_users as fetch_all, delete_local_user as remove,
  add_local_user as insert, update_local_user as update,
}
use auth_proxy.Proxy.Responses.Answers.{is_own, OwnReply}
use auth_proxy.Proxy.LocalUsers.Helpers.{
  shown, user_got, get_local_user_helper, users_marshaled, users_got, get_local_users_helper,
  user_updated, update_local_user_info, user_to_update, update_local_user_helper, user_deleted,
  delete_local_user_helper, created, user_added, add_local_user_helper, hidden, summary,
  merged_user,
}

module _ (env : Env) where
  shown-Own : (r : Result String) → OwnReply (shown env r)
  unfolding shown is_own
  shown-Own (ok text) = refl
  shown-Own (err e) = refl

  user_got-Own : (r : Result LocalUser) → OwnReply (user_got env r)
  unfolding user_got is_own
  user_got-Own (ok user) = shown-Own (env.local_user_json.marshal (hidden env user))
  user_got-Own (err e) = ground arith

  pub get_local_user_helper-Own :
      (name : String) → Returns OwnReply (get_local_user_helper env name)
  unfolding get_local_user_helper
  get_local_user_helper-Own name = Returns-mapped (fetch env name) (user_got env) user_got-Own

  users_got-Own : (r : Result (List LocalUser)) → OwnReply (users_got env r)
  unfolding users_got is_own
  users_got-Own (ok users) = marshaled (env.local_users_json.marshal (map (summary env) users))
    where
      marshaled : (r : Result String) → OwnReply (users_marshaled env r)
      marshaled (ok text) = refl
      marshaled (err e) = refl
  users_got-Own (err e) = refl

  pub get_local_users_helper-Own : Returns OwnReply (get_local_users_helper env)
  unfolding get_local_users_helper
  get_local_users_helper-Own = Returns-mapped (fetch_all env) (users_got env) users_got-Own

  user_updated-Own : (r : Result LocalUser) → OwnReply (user_updated env r)
  unfolding user_updated is_own
  user_updated-Own (ok user) = shown-Own (env.local_user_json.marshal (hidden env user))
  user_updated-Own (err e) = ground arith

  user_to_update-Own :
      (name : String) (given : LocalUser) (r : Result LocalUser)
      → Returns OwnReply (user_to_update env name given r)
  unfolding user_to_update update_local_user_info is_own
  user_to_update-Own name given (ok actual) =
      Returns-mapped (update env name (merged_user env given actual)) (user_updated env)
        user_updated-Own
  user_to_update-Own name given (err e) = Returns-pure _ (ground arith)

  pub update_local_user_helper-Own :
      (name : String) (given : LocalUser)
      → Returns OwnReply (update_local_user_helper env name given)
  unfolding update_local_user_helper is_own
  update_local_user_helper-Own name given = Returns-if (is_empty name) _ _ (Returns-pure _ refl) (
      Returns-attempt (fetch env name) (user_to_update env name given)
        (user_to_update-Own name given))

  user_deleted-Own : (r : Result (Unit {0})) → OwnReply (user_deleted env r)
  unfolding user_deleted is_own
  user_deleted-Own (ok _) = refl
  user_deleted-Own (err e) = ground arith

  pub delete_local_user_helper-Own :
      (name : String) → Returns OwnReply (delete_local_user_helper env name)
  unfolding delete_local_user_helper is_own
  delete_local_user_helper-Own name =
      Returns-if (is_empty name) _ _ (Returns-pure _ refl)
        (Returns-mapped (remove env name) (user_deleted env) user_deleted-Own)

  user_added-Own : (r : Result LocalUser) → OwnReply (user_added env r)
  unfolding user_added is_own
  user_added-Own (ok user) = made (env.local_user_json.marshal (hidden env user))
    where
      made : (r : Result String) → OwnReply (created env r)
      made (ok text) = refl
      made (err e) = refl
  user_added-Own (err e) = ground arith

  pub add_local_user_helper-Own :
      (user : LocalUser) → Returns OwnReply (add_local_user_helper env user)
  unfolding add_local_user_helper is_own
  add_local_user_helper-Own user =
      Returns-if (is_empty user.username || is_empty user.password) _ _ (Returns-pure _ refl) (
        Returns-if (not (matches_username user.username)) _ _ (Returns-pure _ refl)
          (Returns-mapped (insert env user) (user_added env) user_added-Own))
