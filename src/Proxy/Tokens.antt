-- ===== src/Proxy/Tokens.antt =====
-- `validateToken` of proxy/helpers.go.
pub mod Unsent
pub mod Answers
pub mod Valid
pub mod Preserving
pub mod Redacted
use auth_proxy.Prelude.{ℕ, Bool, String, List, Option, none, some, if◌then◌else◌}
use auth_proxy.Errors.{Error, is_key_not_found, Result, ok, err}
use auth_proxy.Exec.{pure, ◌>>=◌, ◌>>◌}
use auth_proxy.Text.{is_empty}
use auth_proxy.Text.Patterns.{matches_username}
use auth_proxy.Types.{LocalUser}
use auth_proxy.Env.{Env, Request}
use auth_proxy.Db.LocalUsers.{get_local_user}
use auth_proxy.Auth.Tokens.{Token, username_claim_key, get_claim}
use auth_proxy.Auth.Issuing.{parse_token}
use auth_proxy.Proxy.Exchange.{Handler, header_values, first_value, call}
use auth_proxy.Proxy.Responses.{auth_error, server_error}

module _ (env : Env) where
  open env use {World}

  refuse : ℕ → String → Handler World (Option Token)
  refuse status msg = do auth_error env status msg; pure none

  -- The check that a local user was not deleted or disabled since the token was issued. An error of
  -- the store is answered with status 500, and the token counts as valid all the same.
  unfoldable pub check_user : Token → Result LocalUser → Handler World (Option Token)
  unfolding refuse
  check_user t (ok user) =
      if user.disable then refuse 401 "User account disabled" else pure (some t)
  check_user t (err e) =
      if is_key_not_found e then refuse 401 "Invalid user" else do server_error env e; pure (some t)

  -- The claims of a parsed token.
  unfoldable pub check_token : Token → Handler World (Option Token)
  unfolding refuse
  check_token t =
      let username = get_claim t username_claim_key in
      if is_empty username
      then refuse 400 "Bad token"
      else if matches_username username
      then (do r ← call (get_local_user env username); check_user t r)
      else pure (some t)

  parsed : Result Token → Handler World (Option Token)
  unfolding refuse
  parsed (ok t) = check_token t
  parsed (err _) = refuse 400 "Bad token"

  with_header : Option (List String) → Handler World (Option Token)
  unfolding refuse parsed
  with_header none = refuse 400 "X-Auth-Token header is missing"
  with_header (some values) =
      let token_str = first_value values in
      if is_empty token_str
      then refuse 400 "Empty auth token"
      else do r ← call (parse_token env token_str); parsed r

  -- `validateToken`: the token, if the second result is true.
  unfoldable pub validate_token : Request → Handler World (Option Token)
  unfolding with_header header_values
  validate_token req = with_header (header_values req.header "X-Auth-Token")
