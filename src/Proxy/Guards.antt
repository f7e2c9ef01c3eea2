-- ===== src/Proxy/Guards.antt =====
-- `adminOnly` and `authorizedUserOnly` of proxy/handlers.go.
pub mod Admission
pub mod Answers
pub mod Preserving
pub mod Redacted
use auth_proxy.Prelude.{Bool, ◌||◌, true, false, String, Option, none, some, ◌==◌, if◌then◌else◌}
use auth_proxy.Errors.{Error, Result, ok, err}
use auth_proxy.Exec.{pure, ◌>>=◌}
use auth_proxy.Env.{Env, Request}
use auth_proxy.Auth.Tokens.{Token, username_claim_key, get_claim}
use auth_proxy.Auth.Policy.{is_superuser}
use auth_proxy.Proxy.Exchange.{Handler, var, call}
use auth_proxy.Proxy.Responses.{process_status_codes}
use auth_proxy.Proxy.Tokens.{validate_token}

abbrev pub is_true : Result Bool → Bool
is_true (ok b) = b
is_true (err _) = false

module _ (env : Env) where
  open env use {World}

  denied : Handler World (Unit {0})
  denied = process_status_codes env 403 "access denied"

  unfoldable pub admin_admitted :
      (Request → Handler World (Unit {0})) → Request → Option Token → Handler World (Unit {0})
  unfolding denied
  admin_admitted handler req none = pure tt
  admin_admitted handler req (some t) = do
    r ← call (is_superuser env t)
    if is_true r then handler req else denied

  -- `adminOnly`
  unfoldable pub admin_only :
      (Request → Handler World (Unit {0})) → Request → Handler World (Unit {0})
  unfolding admin_admitted
  admin_only handler req = do t ← validate_token env req; admin_admitted handler req t

  unfoldable pub user_admitted :
      (Request → Handler World (Unit {0})) → Request → Option Token → Handler World (Unit {0})
  unfolding denied
  user_admitted handler req none = pure tt
  user_admitted handler req (some t) = do
    r ← call (is_superuser env t)
    if is_true r || var req.vars "username" == get_claim t username_claim_key
        then handler req
        else denied

  -- `authorizedUserOnly`
  unfoldable pub authorized_user_only :
      (Request → Handler World (Unit {0})) → Request → Handler World (Unit {0})
  unfolding user_admitted
  authorized_user_only handler req = do t ← validate_token env req; user_admitted handler req t
