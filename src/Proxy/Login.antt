-- ===== src/Proxy/Login.antt =====
-- `loginHandler` of proxy/handlers.go.
pub mod Answers
pub mod Preserving
use auth_proxy.Prelude.{◌||◌, String, append, List, if◌then◌else◌}
use auth_proxy.Errors.{errorf, error_text, Result, ok, err}
use auth_proxy.Exec.{Exec, ◌>>=◌, ◌>>◌}
use auth_proxy.Text.{is_empty}
use auth_proxy.Messages.{LoginReq}
use auth_proxy.Env.{Env, Request}
use auth_proxy.Auth.Login.{authenticate}
use auth_proxy.Proxy.Exchange.{Handler, write_header, write_body, emit, call}
use auth_proxy.Proxy.Responses.{set_default_response_headers, auth_error, server_error}

module _ (env : Env)
    (ldap_authenticate : String → String → Exec env.World (String × List String)) where
  open env use {World, login_req_json, login_response_json}

  authenticated : Result String → Handler World (Unit {0})
  unfolding emit
  authenticated (ok token_str) = do
    emit (write_header 200)
    emit (write_body (login_response_json token_str))
  authenticated (err e) = auth_error env 401 "Invalid username/password"

  -- The credentials of the request, once it is read.
  unfoldable pub login : LoginReq → Handler World (Unit {0})
  unfolding authenticated
  login l_req =
      if is_empty l_req.username || is_empty l_req.password
      then auth_error env 400 "Username and password must be provided"
      else do
        r ← call (authenticate env ldap_authenticate l_req.username l_req.password)
        authenticated r

  unmarshaled : Result LoginReq → Handler World (Unit {0})
  unmarshaled (ok l_req) = login l_req
  unmarshaled (err e) =
      server_error env
        (errorf (append "Failed to unmarshal credentials from request body: " (error_text e)))

  body_read : Result String → Handler World (Unit {0})
  unfolding unmarshaled
  body_read (ok body) = unmarshaled (login_req_json.unmarshal body)
  body_read (err e) =
      server_error env (errorf (append "Failed to read body from request: " (error_text e)))

  -- `loginHandler`
  unfoldable pub login_handler : Request → Handler World (Unit {0})
  unfolding body_read
  login_handler req = do set_default_response_headers; body_read req.body
