-- ===== src/Proxy/LocalUsers/Preserving.antt =====
-- The handlers of local users, and the entry of the built-in administrator.
use auth_proxy.Prelude.{ℕ, String}
use auth_proxy.Errors.{Result, ok, err}
use auth_proxy.Exec.{Exec, ◌>>=◌}
use auth_proxy.Exec.Preserves.{Preserves, Preserves-throw, Preserves-bind}
use auth_proxy.Types.{LocalUser}
use auth_proxy.Env.{Env, Request}
use auth_proxy.Env.Sparing.{Sparing}
use auth_proxy.Proxy.Exchange.{call, var}
use auth_proxy.Proxy.Exchange.Preserving.{NoSlash, Spares, Spares-call}
use auth_proxy.Proxy.Responses.Preserving.{server_error-Spares, process_status_codes-Spares}
use auth_proxy.Proxy.LocalUsers.Helpers.Preserving.{
  get_local_user_helper-Preserves, get_local_users_helper-Preserves,
  update_local_user_helper-Preserves, delete_local_user_helper-Preserves,
  add_local_user_helper-Preserves,
}
use auth_proxy.Proxy.LocalUsers.{
  respond, with_body, read_body, add_local_user, delete_local_user, update_local_user,
  get_local_users, get_local_user,
}

module _ (env : Env) {I : env.World → Type 0} (s : Sparing env I) where
  open env use {World}

  respond-Spares : {m : Exec World (ℕ × String)} → Preserves I m → Spares I (call m >>= respond env)
  unfolding respond
  respond-Spares km = Preserves-bind (Spares-call I km) after
    where
      after : (r : Result (ℕ × String)) → Spares I (respond env r)
      after (ok (n, resp)) = process_status_codes-Spares env I n resp
      after (err e) = Preserves-throw e

  read_body-Spares :
      (helper : LocalUser → Exec World (ℕ × String)) (body : Result String)
      → ((user : LocalUser) → Preserves I (helper user))
      → Spares I (read_body env helper body)
  unfolding read_body with_body
  read_body-Spares helper (ok body) kh = given (env.local_user_json.unmarshal body)
    where
      given : (r : Result LocalUser) → Spares I (with_body env helper r)
      given (ok user) = respond-Spares (kh user)
      given (err e) = server_error-Spares env I _
  read_body-Spares helper (err e) kh = server_error-Spares env I _

  pub add_local_user-Spares : (req : Request) → NoSlash req → Spares I (add_local_user env req)
  unfolding add_local_user
  add_local_user-Spares req free =
      read_body-Spares _ req.body (add_local_user_helper-Preserves env s)

  pub delete_local_user-Spares :
      (req : Request) → NoSlash req → Spares I (delete_local_user env req)
  unfolding delete_local_user
  delete_local_user-Spares req free =
      respond-Spares (delete_local_user_helper-Preserves env s (var req.vars "username") free)

  pub update_local_user-Spares :
      (req : Request) → NoSlash req → Spares I (update_local_user env req)
  unfolding update_local_user
  update_local_user-Spares req free =
      read_body-Spares _ req.body
        (update_local_user_helper-Preserves env s (var req.vars "username"))

  pub get_local_users-Spares : (req : Request) → NoSlash req → Spares I (get_local_users env req)
  unfolding get_local_users
  get_local_users-Spares req free = respond-Spares (get_local_users_helper-Preserves env s)

  pub get_local_user-Spares : (req : Request) → NoSlash req → Spares I (get_local_user env req)
  unfolding get_local_user
  get_local_user-Spares req free =
      respond-Spares (get_local_user_helper-Preserves env s (var req.vars "username"))
