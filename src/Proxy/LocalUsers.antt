-- ===== src/Proxy/LocalUsers.antt =====
-- The handlers of local users (proxy/handlers.go) and their helpers (proxy/helpers.go). A helper
-- returns a status code and the response's text; a nil text is empty.
pub mod Helpers
pub mod Answers
pub mod Redacted
pub mod Preserving
use auth_proxy.Prelude.{String}
use auth_proxy.Errors.{Error, errorf, error_text, Result, ok, err}
use auth_proxy.Exec.{Exec, throw, ◌>>=◌}
use auth_proxy.Prelude.{ℕ, append}
use auth_proxy.Types.{LocalUser}
use auth_proxy.Env.{Env, Request}
use auth_proxy.Proxy.Exchange.{Handler, var, call}
use auth_proxy.Proxy.Responses.{server_error, process_status_codes}
use auth_proxy.Proxy.LocalUsers.Helpers.{
  add_local_user_helper, delete_local_user_helper, update_local_user_helper, get_local_users_helper,
  get_local_user_helper,
}

module _ (env : Env) where
  open env use {World, local_user_json}

  -- The end of each handler; a helper makes no error, only a panic.
  respond : Result (ℕ × String) → Handler World (Unit {0})
  respond (ok (status_code, resp)) = process_status_codes env status_code resp
  respond (err e) = throw e

  with_body : (LocalUser → Exec World (ℕ × String)) → Result LocalUser → Handler World (Unit {0})
  unfolding respond
  with_body helper (ok user) = do r ← call (helper user); respond r
  with_body helper (err e) =
      server_error env
        (errorf (append "Failed to unmarshal user info. from request body: " (error_text e)))

  read_body : (LocalUser → Exec World (ℕ × String)) → Result String → Handler World (Unit {0})
  unfolding with_body
  read_body helper (ok body) = with_body helper (local_user_json.unmarshal body)
  read_body helper (err e) =
      server_error env (errorf (append "Failed to read body from request: " (error_text e)))

  -- `addLocalUser`
  unfoldable pub add_local_user : Request → Handler World (Unit {0})
  unfolding read_body
  add_local_user req = read_body (add_local_user_helper env) req.body

  -- `deleteLocalUser`
  unfoldable pub delete_local_user : Request → Handler World (Unit {0})
  unfolding respond
  delete_local_user req = do
    r ← call (delete_local_user_helper env (var req.vars "username"))
    respond r

  -- `updateLocalUser`
  unfoldable pub update_local_user : Request → Handler World (Unit {0})
  unfolding read_body
  update_local_user req =
      read_body (update_local_user_helper env (var req.vars "username")) req.body

  -- `getLocalUsers`
  unfoldable pub get_local_users : Request → Handler World (Unit {0})
  unfolding respond
  get_local_users req = do r ← call (get_local_users_helper env); respond r

  -- `getLocalUser`
  unfoldable pub get_local_user : Request → Handler World (Unit {0})
  unfolding respond
  get_local_user req = do r ← call (get_local_user_helper env (var req.vars "username")); respond r
