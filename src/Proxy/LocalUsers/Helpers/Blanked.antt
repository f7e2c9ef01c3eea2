-- ===== src/Proxy/LocalUsers/Helpers/Blanked.antt =====
-- The texts of the replies about local users (proxy/helpers.go).
use auth_proxy.Prelude.{◌≡◌, ◌||◌, inl, inr, refl, not, String, List, [], ◌∷◌, map, All}
use auth_proxy.Errors.{
  Error, error_text, Result, ok, err, is_key_not_found, is_illegal_operation, is_key_exists,
}
use auth_proxy.Exec.Returns.{Returns, Returns-pure, Returns-if, Returns-attempt, Returns-mapped}
use auth_proxy.Text.{is_empty}
use auth_proxy.Text.Patterns.{matches_username}
use auth_proxy.Types.{LocalUser}
use auth_proxy.Env.{Env, Request}
use auth_proxy.Db.LocalUsers.{
  get_local_user as fetch, get_local_users as fetch_all, delete_local_user as remove,
  add_local_user as insert, update_local_user as update,
}
use auth_proxy.Db.LocalUsers.Failing.{get_local_users-UsersUnread}
use auth_proxy.Proxy.Responses.Redacted.{
  NoSecrets, is_message, Explained, UsersUnread-Explained, unprinted_user, Blank, BlankReply,
  BlankReply-if, BlankReply-none, BlankReply-error, BlankReply-stated,
}
use auth_proxy.Proxy.LocalUsers.Helpers.{
  shown, user_got, get_local_user_helper, users_marshaled, users_got, get_local_users_helper,
  user_updated, update_local_user_info, user_to_update, update_local_user_helper, user_deleted,
  delete_local_user_helper, created, user_added, add_local_user_helper, hidden, summary,
  merged_user,
}

module _ (env : Env) (req : Request) where
  shown-Blank :
      (r : Result String)
      → ((t : String) → r ≡ ok t → Blank env req t)
      → ((e : Error) → r ≡ err e → Explained env req (error_text e))
      → BlankReply env req (shown env r)
  unfolding shown
  shown-Blank (ok text) k f = record { shown = λ h. k text refl; told = λ silent other. cc }
  shown-Blank (err e) k f = BlankReply-error env req 500 (error_text e) refl (f e refl)

  user_got-Blank : (r : Result LocalUser) → (BlankReply env req) (user_got env r)
  unfolding user_got is_message
  user_got-Blank (ok user) =
      shown-Blank (env.local_user_json.marshal (hidden env user))
        (λ t m. inl (hidden env user, m, (refl, refl)))
        (λ e m. unprinted_user (hidden env user) e (refl, refl) m)
  user_got-Blank (err e) =
      BlankReply-if env req (is_key_not_found e) _ _ (BlankReply-none env req _ _ refl refl)
        (BlankReply-stated env req _ _ refl refl)

  pub get_local_user_helper-Blank :
      (name : String) → Returns (BlankReply env req) (get_local_user_helper env name)
  unfolding get_local_user_helper
  get_local_user_helper-Blank name = Returns-mapped (fetch env name) (user_got env) user_got-Blank

  summaries-NoSecrets : (users : List LocalUser) → All NoSecrets (map (summary env) users)
  summaries-NoSecrets [] = tt
  summaries-NoSecrets (user ∷ users) = ((refl, refl), summaries-NoSecrets users)

  users_got-Blank :
      (w : env.World) (r : Result (List LocalUser))
      → (fetch_all env w).0 ≡ r
      → BlankReply env req (users_got env r)
  unfolding users_got users_marshaled is_message
  users_got-Blank w (ok users) got =
      marshaled (env.local_users_json.marshal (map (summary env) users)) (λ t m. m)
    where
      marshaled :
          (r : Result String)
          → ((t : String)
              → r ≡ ok t
              → env.local_users_json.marshal (map (summary env) users) ≡ ok t)
          → BlankReply env req (users_marshaled env r)
      marshaled (ok text) k = record {
        shown = λ h. inr (inl (map (summary env) users, k text refl, summaries-NoSecrets users));
        told = λ silent other. cc;
      }
      marshaled (err e) k = BlankReply-stated env req _ _ refl refl
  users_got-Blank w (err e) got =
      BlankReply-error env req 500 (error_text e) refl
        (UsersUnread-Explained env req e (get_local_users-UsersUnread env w e got))

  pub get_local_users_helper-Blank : Returns (BlankReply env req) (get_local_users_helper env)
  unfolding get_local_users_helper
  get_local_users_helper-Blank = record {
    at = λ w. (users_got env (fetch_all env w).0, refl, users_got-Blank w (fetch_all env w).0 refl);
  }

  user_updated-Blank : (r : Result LocalUser) → (BlankReply env req) (user_updated env r)
  unfolding user_updated is_message
  user_updated-Blank (ok user) =
      shown-Blank (env.local_user_json.marshal (hidden env user))
        (λ t m. inl (hidden env user, m, (refl, refl)))
        (λ e m. unprinted_user (hidden env user) e (refl, refl) m)
  user_updated-Blank (err e) =
      BlankReply-if env req (is_key_not_found e) _ _ (BlankReply-none env req _ _ refl refl) (
        BlankReply-if env req (is_illegal_operation e) _ _ (BlankReply-stated env req _ _ refl refl)
          (BlankReply-stated env req _ _ refl refl))

  user_to_update-Blank :
      (name : String) (given : LocalUser) (r : Result LocalUser)
      → Returns (BlankReply env req) (user_to_update env name given r)
  unfolding user_to_update update_local_user_info is_message
  user_to_update-Blank name given (ok actual) =
      Returns-mapped (update env name (merged_user env given actual)) (user_updated env)
        user_updated-Blank
  user_to_update-Blank name given (err e) = Returns-pure _ (
      BlankReply-if env req (is_key_not_found e) _ _ (BlankReply-none env req _ _ refl refl)
        (BlankReply-stated env req _ _ refl refl))

  pub update_local_user_helper-Blank :
      (name : String) (given : LocalUser)
      → Returns (BlankReply env req) (update_local_user_helper env name given)
  unfolding update_local_user_helper is_message
  update_local_user_helper-Blank name given =
      Returns-if (is_empty name) _ _ (Returns-pure _ (BlankReply-stated env req _ _ refl refl)) (
        Returns-attempt (fetch env name) (user_to_update env name given)
          (user_to_update-Blank name given))

  user_deleted-Blank : (r : Result (Unit {0})) → (BlankReply env req) (user_deleted env r)
  unfolding user_deleted is_message
  user_deleted-Blank (ok _) = BlankReply-none env req _ _ refl refl
  user_deleted-Blank (err e) =
      BlankReply-if env req (is_key_not_found e) _ _ (BlankReply-none env req _ _ refl refl) (
        BlankReply-if env req (is_illegal_operation e) _ _ (BlankReply-stated env req _ _ refl refl)
          (BlankReply-stated env req _ _ refl refl))

  pub delete_local_user_helper-Blank :
      (name : String) → Returns (BlankReply env req) (delete_local_user_helper env name)
  unfolding delete_local_user_helper is_message
  delete_local_user_helper-Blank name =
      Returns-if (is_empty name) _ _ (Returns-pure _ (BlankReply-stated env req _ _ refl refl))
        (Returns-mapped (remove env name) (user_deleted env) user_deleted-Blank)

  user_added-Blank : (r : Result LocalUser) → BlankReply env req (user_added env r)
  unfolding user_added created is_message
  user_added-Blank (ok user) = made (env.local_user_json.marshal (hidden env user)) (λ t m. m)
    where
      made :
          (r : Result String)
          → ((t : String) → r ≡ ok t → env.local_user_json.marshal (hidden env user) ≡ ok t)
          → BlankReply env req (created env r)
      made (ok text) k = record {
        shown = λ h. inl (hidden env user, k text refl, (refl, refl));
        told = λ silent other. cc;
      }
      made (err e) k = (BlankReply-stated env req _ _ refl refl)
  user_added-Blank (err e) =
      BlankReply-if env req (is_key_exists e) _ _ (BlankReply-stated env req _ _ refl refl)
        (BlankReply-stated env req _ _ refl refl)

  pub add_local_user_helper-Blank :
      (user : LocalUser) → Returns (BlankReply env req) (add_local_user_helper env user)
  unfolding add_local_user_helper is_message
  add_local_user_helper-Blank user =
      Returns-if (is_empty user.username || is_empty user.password) _ _
        (Returns-pure _ (BlankReply-stated env req _ _ refl refl))
        (Returns-if (not (matches_username user.username)) _ _
          (Returns-pure _ (BlankReply-stated env req _ _ refl refl))
          (Returns-mapped (insert env user) (user_added env) user_added-Blank))
