-- ===== src/Proxy/Tokens/Redacted.antt =====
-- What the validation of a token (proxy/helpers.go) writes.
use auth_proxy.Prelude.{◌≡◌, refl, true, Bool-cases, inl, inr, ℕ, String, List, Option, none, some}
use auth_proxy.Errors.{Result, ok, err, is_key_not_found}
use auth_proxy.Exec.Preserves.{Preserves-pure, Preserves-if, Preserves-bind, Preserves-then}
use auth_proxy.Text.{is_empty}
use auth_proxy.Text.Patterns.{matches_username}
use auth_proxy.Types.{LocalUser}
use auth_proxy.Env.{Env, Request}
use auth_proxy.Auth.Issuing.{parse_token}
use auth_proxy.Auth.Tokens.{Token, username_claim_key, get_claim}
use auth_proxy.Db.LocalUsers.{get_local_user}
use auth_proxy.Db.LocalUsers.Failing.{get_local_user-UserUnread}
use auth_proxy.Proxy.Exchange.{first_value}
use auth_proxy.Proxy.Exchange.Writes.{Writes, Writes-call, Writes-known}
use auth_proxy.Proxy.Responses.Redacted.{
  is_message, stated, UserUnread-Explained, Redacted, auth_error-Redacted, server_error-Redacted,
}
use auth_proxy.Proxy.Tokens.{refuse, check_user, check_token, parsed, with_header, validate_token}

module _ (env : Env) (req : Request) where
  refuse-Redacted :
      (n : ℕ) (msg : String) → is_message msg ≡ true → Writes (Redacted env req) (refuse env n msg)
  unfolding refuse
  refuse-Redacted n msg listed =
      Preserves-then (auth_error-Redacted env req n msg (stated msg listed)) (Preserves-pure none)

  check_user-Redacted :
      (t : Token) (name : String) (w : env.World) (r : Result LocalUser)
      → (get_local_user env name w).0 ≡ r
      → Writes (Redacted env req) (check_user env t r)
  unfolding check_user is_message
  check_user-Redacted t name w (ok user) h =
      Preserves-if user.disable (refuse-Redacted _ _ refl) (Preserves-pure (some t))
  check_user-Redacted t name w (err e) h = elim (Bool-cases (is_key_not_found e)) [
    | inl missing ↦ rw missing (refuse-Redacted _ _ refl)
    | inr other ↦
        let why = UserUnread-Explained env req e other (get_local_user-UserUnread env name w e h) in
        rw other (Preserves-then (server_error-Redacted env req e why) (Preserves-pure (some t)))
  ]

  check_token-Redacted : (t : Token) → Writes (Redacted env req) (check_token env t)
  unfolding check_token is_message
  check_token-Redacted t =
      let username = get_claim t username_claim_key in
      Preserves-if (is_empty username) (refuse-Redacted _ _ refl) (
        Preserves-if (matches_username username)
          (Writes-known (Redacted env req) (get_local_user env username) (check_user env t)
            (λ w r h. check_user-Redacted t username w r h))
          (Preserves-pure (some t)))

  with_header-Redacted : (h : Option (List String)) → Writes (Redacted env req) (with_header env h)
  unfolding with_header parsed is_message
  with_header-Redacted none = refuse-Redacted _ _ refl
  with_header-Redacted (some values) =
      Preserves-if (is_empty (first_value values)) (refuse-Redacted _ _ refl) (
        Preserves-bind (Writes-call (Redacted env req) (parse_token env (first_value values)))
          after)
    where
      after : (r : Result Token) → Writes (Redacted env req) (parsed env r)
      after (ok t) = check_token-Redacted t
      after (err e) = refuse-Redacted _ _ refl

  pub validate_token-Redacted : Writes (Redacted env req) (validate_token env req)
  unfolding validate_token
  validate_token-Redacted = with_header-Redacted _
