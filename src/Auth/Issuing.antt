-- ===== src/Auth/Issuing.antt =====
-- auth/token.go: making, signing and parsing tokens.
pub mod Preserving
use auth_proxy.Prelude.{ℕ, ◌+◌, ◌*◌, Bool, String, List, [], ◌∷◌, if◌then◌else◌}
use auth_proxy.Errors.{errorf, is_panic, Result, ok, err}
use auth_proxy.Exec.{Exec, pure, throw, lift, attempt, always, ◌>>=◌}
use auth_proxy.Types.{role_claim_key}
use auth_proxy.Env.{Env, text, number, Claims}
use auth_proxy.Db.Authorizations.{list_by_claim_and_principal}
use auth_proxy.Auth.Tokens.{Token, add_claim, add_principals_claim, with_authorizations}
use auth_proxy.Auth.SigningKey.{get_token_signing_key}

abbrev pub token_validity_in_hours : ℕ
token_validity_in_hours = 10

module _ (env : Env) where
  open env use {World, now, signed_string, jwt_parse}

  -- `AddRoleClaim`
  unfoldable pub add_role_claim : Token → String → Exec World Token
  add_role_claim t principal = do
    authz ← list_by_claim_and_principal env role_claim_key principal
    lift (with_authorizations t authz)

  -- `NewToken`; the lifetime is counted in seconds.
  unfoldable pub new_token : Exec World Token
  unfolding add_claim
  new_token = do
    seconds ← always now
    let expires = number (seconds + 3600 * token_validity_in_hours)
    let t = add_claim (record { claims = [] }) "exp" expires
    pure (add_claim t "iss" (text "auth_proxy"))

  -- The error of `AddRoleClaim` is dropped.
  or_unchanged : Token → Result Token → Exec World Token
  or_unchanged t (ok t') = pure t'
  or_unchanged t (err e) = if is_panic e then throw e else pure t

  -- The loop of `NewTokenWithClaims`.
  unfoldable pub add_role_claims : Token → List String → Exec World Token
  unfolding or_unchanged
  add_role_claims t [] = pure t
  add_role_claims t (p ∷ principals) = do
    r ← attempt (add_role_claim t p)
    t' ← or_unchanged t r
    add_role_claims t' principals

  -- `NewTokenWithClaims`
  unfoldable pub new_token_with_claims : List String → Exec World Token
  unfolding add_principals_claim
  new_token_with_claims principals = do
    t ← new_token
    add_role_claims (add_principals_claim t principals) principals

  -- `Stringify`
  unfoldable pub stringify : Token → Exec World String
  stringify t = do key ← get_token_signing_key env; lift (signed_string t.claims key)

  -- The function that `ParseToken` gives to `jwt.Parse`.
  unfoldable pub parse_key : Bool → Exec World String
  parse_key is_hmac =
      if is_hmac then get_token_signing_key env else throw (errorf "Unexpected signing method: %v")

  parsed : Result (Claims × Bool) → Exec World Token
  parsed (ok (claims, valid)) =
      if valid then pure (record { claims = claims }) else throw (errorf "Invalid token: %#v")
  parsed (err e) = throw (errorf "Error parsing access token %#v")

  -- `ParseToken`; its two branches for errors differ in the message alone.
  unfoldable pub parse_token : String → Exec World Token
  unfolding parsed
  parse_token token_str = do r ← attempt (jwt_parse token_str parse_key); parsed r
