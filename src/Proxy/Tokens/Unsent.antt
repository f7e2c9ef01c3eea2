-- ===== src/Proxy/Tokens/Unsent.antt =====
-- Refusing a request, or validating its token, forwards nothing to netmaster.
use auth_proxy.Prelude.{ℕ, String, Option, none, some, List}
use auth_proxy.Errors.{Error, Result, ok, err}
use auth_proxy.Types.{LocalUser}
use auth_proxy.Env.{Env, Request}
use auth_proxy.Auth.Tokens.{Token}
use auth_proxy.Proxy.Exchange.Unsent.{SendsNothing, unsent}
use auth_proxy.Proxy.Responses.{enable_hsts, set_default_response_headers, auth_error, server_error}
use auth_proxy.Proxy.Tokens.{refuse, check_user, check_token, parsed, with_header, validate_token}

pub set_default_response_headers-SendsNothing :
    {W : Type 0} → SendsNothing {W = W} set_default_response_headers
unfolding set_default_response_headers enable_hsts
set_default_response_headers-SendsNothing = search unsent

module _ (env : Env) where
  pub auth_error-SendsNothing : (n : ℕ) (msg : String) → SendsNothing (auth_error env n msg)
  unfolding auth_error
  auth_error-SendsNothing n msg = search unsent

  pub server_error-SendsNothing : (e : Error) → SendsNothing (server_error env e)
  unfolding server_error
  server_error-SendsNothing e = search unsent

  refuse-SendsNothing : (n : ℕ) (msg : String) → SendsNothing (refuse env n msg)
  unfolding refuse
  refuse-SendsNothing n msg = search (unsent, auth_error-SendsNothing)

  check_user-SendsNothing : (t : Token) (r : Result LocalUser) → SendsNothing (check_user env t r)
  unfolding check_user
  check_user-SendsNothing t (ok user) = search (unsent, refuse-SendsNothing)
  check_user-SendsNothing t (err e) =
      search (unsent, refuse-SendsNothing, server_error-SendsNothing)

  check_token-SendsNothing : (t : Token) → SendsNothing (check_token env t)
  unfolding check_token
  check_token-SendsNothing t = search (unsent, refuse-SendsNothing, check_user-SendsNothing)

  parsed-SendsNothing : (r : Result Token) → SendsNothing (parsed env r)
  unfolding parsed
  parsed-SendsNothing (ok t) = check_token-SendsNothing t
  parsed-SendsNothing (err e) = refuse-SendsNothing 400 "Bad token"

  with_header-SendsNothing : (h : Option (List String)) → SendsNothing (with_header env h)
  unfolding with_header
  with_header-SendsNothing none = refuse-SendsNothing 400 "X-Auth-Token header is missing"
  with_header-SendsNothing (some values) = search (unsent, refuse-SendsNothing, parsed-SendsNothing)

  pub validate_token-SendsNothing : (req : Request) → SendsNothing (validate_token env req)
  unfolding validate_token
  validate_token-SendsNothing req = with_header-SendsNothing _
