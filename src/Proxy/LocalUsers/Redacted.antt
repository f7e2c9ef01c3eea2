-- ===== src/Proxy/LocalUsers/Redacted.antt =====
-- What the handlers of local users write.
use auth_proxy.Prelude.{String, ◌≡◌, refl}
use auth_proxy.Errors.{error_text, Result, ok, err}
use auth_proxy.Exec.{Exec, ◌>>=◌}
use auth_proxy.Exec.Returns.{Returns}
use auth_proxy.Types.{LocalUser}
use auth_proxy.Env.{Env, Request}
use auth_proxy.Proxy.Exchange.{call, var}
use auth_proxy.Proxy.Exchange.Writes.{Writes, Writes-returned}
use auth_proxy.Proxy.Responses.Redacted.{
  unread, unparsed_user, Redacted, BlankReply, server_error-Redacted, process_status_codes-Redacted,
}
use auth_proxy.Proxy.LocalUsers.Helpers.{
  Reply, get_local_user_helper, get_local_users_helper, update_local_user_helper,
  delete_local_user_helper, add_local_user_helper,
}
use auth_proxy.Proxy.LocalUsers.Helpers.Blanked.{
  get_local_user_helper-Blank, get_local_users_helper-Blank, update_local_user_helper-Blank,
  delete_local_user_helper-Blank, add_local_user_helper-Blank,
}
use auth_proxy.Proxy.LocalUsers.{
  respond, with_body, read_body, add_local_user, delete_local_user, update_local_user,
  get_local_users, get_local_user,
}

module _ (env : Env) (req : Request) where
  open env use {World}

  respond-Redacted :
      (m : Exec World Reply)
      → Returns (BlankReply env req) m
      → Writes (Redacted env req) (call m >>= respond env)
  unfolding respond
  respond-Redacted m km =
      Writes-returned (Redacted env req) m (respond env) km
        (λ reply h. process_status_codes-Redacted env req reply.0 reply.1 h)

  read_body-Redacted :
      (helper : LocalUser → Exec World Reply) (body : Result String)
      → req.body ≡ body
      → ((user : LocalUser) → Returns (BlankReply env req) (helper user))
      → Writes (Redacted env req) (read_body env helper body)
  unfolding read_body error_text
  read_body-Redacted helper (ok body) is kh = given (env.local_user_json.unmarshal body) refl
    where
      given :
          (r : Result LocalUser)
          → env.local_user_json.unmarshal body ≡ r
          → Writes (Redacted env req) (with_body env helper r)
      given (ok user) h = respond-Redacted (helper user) (kh user)
      given (err e) h = server_error-Redacted env req _ (unparsed_user body e is h)
  read_body-Redacted helper (err e) is kh = server_error-Redacted env req _ (unread e is)

  pub add_local_user-Redacted : Writes (Redacted env req) (add_local_user env req)
  unfolding add_local_user
  add_local_user-Redacted =
      read_body-Redacted (add_local_user_helper env) req.body refl
        (add_local_user_helper-Blank env req)

  pub delete_local_user-Redacted : Writes (Redacted env req) (delete_local_user env req)
  unfolding delete_local_user
  delete_local_user-Redacted =
      let name = var req.vars "username" in
      respond-Redacted (delete_local_user_helper env name)
        (delete_local_user_helper-Blank env req name)

  pub update_local_user-Redacted : Writes (Redacted env req) (update_local_user env req)
  unfolding update_local_user
  update_local_user-Redacted =
      let name = var req.vars "username" in
      read_body-Redacted (update_local_user_helper env name) req.body refl
        (update_local_user_helper-Blank env req name)

  pub get_local_users-Redacted : Writes (Redacted env req) (get_local_users env req)
  unfolding get_local_users
  get_local_users-Redacted =
      respond-Redacted (get_local_users_helper env) (get_local_users_helper-Blank env req)

  pub get_local_user-Redacted : Writes (Redacted env req) (get_local_user env req)
  unfolding get_local_user
  get_local_user-Redacted =
      let name = var req.vars "username" in
      respond-Redacted (get_local_user_helper env name) (get_local_user_helper-Blank env req name)
