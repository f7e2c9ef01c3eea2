-- ===== src/Proxy/LocalUsers/Answers.antt =====
-- The statuses that the handlers of local users write.
use auth_proxy.Prelude.{ℕ, ◌≡◌, refl, true, false, String}
use auth_proxy.Errors.{Result, ok, err}
use auth_proxy.Exec.{Exec, ◌>>=◌}
use auth_proxy.Exec.Returns.{Returns}
use auth_proxy.Types.{LocalUser}
use auth_proxy.Env.{Env, Request}
use auth_proxy.Proxy.Exchange.{call, var}
use auth_proxy.Proxy.Exchange.Answers.{Answers, Answers-returned}
use auth_proxy.Proxy.Responses.Answers.{
  is_own, OwnReply, server_error-Answers, process_status_codes-Answers,
}
use auth_proxy.Proxy.LocalUsers.Helpers.{
  Reply, get_local_user_helper, get_local_users_helper, update_local_user_helper,
  delete_local_user_helper, add_local_user_helper,
}
use auth_proxy.Proxy.LocalUsers.Helpers.Statuses.{
  get_local_user_helper-Own, get_local_users_helper-Own, update_local_user_helper-Own,
  delete_local_user_helper-Own, add_local_user_helper-Own,
}
use auth_proxy.Proxy.LocalUsers.{
  respond, with_body, read_body, add_local_user, delete_local_user, update_local_user,
  get_local_users, get_local_user,
}

module _ (env : Env) where
  open env use {World}

  module _ {P : ℕ → Type 0} (own : (n : ℕ) → is_own n ≡ true → P n) where
    respond-Answers :
        (m : Exec World Reply)
        → Returns OwnReply m
        → Answers P false (λ _. true) (call m >>= respond env)
    unfolding respond
    respond-Answers m km =
        Answers-returned m (respond env) km
          (λ reply h. process_status_codes-Answers env reply.0 reply.1 (own reply.0 h))

    read_body-Answers :
        (helper : LocalUser → Exec World Reply) (body : Result String)
        → ((user : LocalUser) → Returns OwnReply (helper user))
        → Answers P false (λ _. true) (read_body env helper body)
    unfolding read_body is_own
    read_body-Answers helper (ok body) kh = given (env.local_user_json.unmarshal body)
      where
        given : (r : Result LocalUser) → Answers P false (λ _. true) (with_body env helper r)
        given (ok user) = respond-Answers (helper user) (kh user)
        given (err e) = server_error-Answers env _ (own 500 refl)
    read_body-Answers helper (err e) kh = server_error-Answers env _ (own 500 refl)

    pub add_local_user-Answers :
        (req : Request) → Answers P false (λ _. true) (add_local_user env req)
    unfolding add_local_user
    add_local_user-Answers req =
        read_body-Answers (add_local_user_helper env) req.body (add_local_user_helper-Own env)

    pub delete_local_user-Answers :
        (req : Request) → Answers P false (λ _. true) (delete_local_user env req)
    unfolding delete_local_user
    delete_local_user-Answers req =
        let name = var req.vars "username" in
        respond-Answers (delete_local_user_helper env name) (delete_local_user_helper-Own env name)

    pub update_local_user-Answers :
        (req : Request) → Answers P false (λ _. true) (update_local_user env req)
    unfolding update_local_user
    update_local_user-Answers req =
        let name = var req.vars "username" in
        read_body-Answers (update_local_user_helper env name) req.body
          (update_local_user_helper-Own env name)

    pub get_local_users-Answers :
        (req : Request) → Answers P false (λ _. true) (get_local_users env req)
    unfolding get_local_users
    get_local_users-Answers req =
        respond-Answers (get_local_users_helper env) (get_local_users_helper-Own env)

    pub get_local_user-Answers :
        (req : Request) → Answers P false (λ _. true) (get_local_user env req)
    unfolding get_local_user
    get_local_user-Answers req =
        let name = var req.vars "username" in
        respond-Answers (get_local_user_helper env name) (get_local_user_helper-Own env name)
