-- ===== src/Proxy/Tokens/Preserving.antt =====
-- Validating a token, and the entry of the built-in administrator.
use auth_proxy.Prelude.{ℕ, String, List, Option, none, some}
use auth_proxy.Errors.{Result, ok, err, is_key_not_found}
use auth_proxy.Exec.Preserves.{Preserves-pure, Preserves-if, Preserves-bind, Preserves-then}
use auth_proxy.Text.{is_empty}
use auth_proxy.Text.Patterns.{matches_username}
use auth_proxy.Types.{LocalUser}
use auth_proxy.Env.{Env, Request}
use auth_proxy.Env.Sparing.{Sparing}
use auth_proxy.Auth.Issuing.Preserving.{parse_token-Preserves}
use auth_proxy.Auth.Tokens.{Token, username_claim_key, get_claim}
use auth_proxy.Db.LocalUsers.Preserving.{get_local_user-Preserves}
use auth_proxy.Proxy.Exchange.{first_value}
use auth_proxy.Proxy.Exchange.Preserving.{Spares, Spares-call}
use auth_proxy.Proxy.Responses.Preserving.{auth_error-Spares, server_error-Spares}
use auth_proxy.Proxy.Tokens.{refuse, check_user, check_token, parsed, with_header, validate_token}

module _ (env : Env) {I : env.World → Type 0} (s : Sparing env I) where
  refuse-Spares : (n : ℕ) (msg : String) → Spares I (refuse env n msg)
  unfolding refuse
  refuse-Spares n msg = Preserves-then (auth_error-Spares env I n msg) (Preserves-pure none)

  check_user-Spares : (t : Token) (r : Result LocalUser) → Spares I (check_user env t r)
  unfolding check_user
  check_user-Spares t (ok user) =
      Preserves-if user.disable (refuse-Spares _ _) (Preserves-pure (some t))
  check_user-Spares t (err e) =
      Preserves-if (is_key_not_found e) (refuse-Spares _ _)
        (Preserves-then (server_error-Spares env I e) (Preserves-pure (some t)))

  check_token-Spares : (t : Token) → Spares I (check_token env t)
  unfolding check_token
  check_token-Spares t =
      let username = get_claim t username_claim_key in
      Preserves-if (is_empty username) (refuse-Spares _ _) (
        Preserves-if (matches_username username)
          (Preserves-bind (Spares-call I (get_local_user-Preserves env s username))
            (check_user-Spares t))
          (Preserves-pure (some t)))

  with_header-Spares : (h : Option (List String)) → Spares I (with_header env h)
  unfolding with_header parsed
  with_header-Spares none = refuse-Spares _ _
  with_header-Spares (some values) =
      Preserves-if (is_empty (first_value values)) (refuse-Spares _ _)
        (Preserves-bind (Spares-call I (parse_token-Preserves env s (first_value values))) after)
    where
      after : (r : Result Token) → Spares I (parsed env r)
      after (ok t) = check_token-Spares t
      after (err e) = refuse-Spares _ _

  pub validate_token-Spares : (req : Request) → Spares I (validate_token env req)
  unfolding validate_token
  validate_token-Spares req = with_header-Spares _
