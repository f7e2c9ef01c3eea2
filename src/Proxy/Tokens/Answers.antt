-- ===== src/Proxy/Tokens/Answers.antt =====
-- The statuses of the replies to requests whose token is not accepted.
use auth_proxy.Prelude.{ℕ, ◌≡◌, refl, Bool, true, false, String, List, Option, none, some}
use auth_proxy.Errors.{Result, ok, err, is_key_not_found}
use auth_proxy.Types.{LocalUser}
use auth_proxy.Text.{is_empty}
use auth_proxy.Text.Patterns.{matches_username}
use auth_proxy.Env.{Env, Request}
use auth_proxy.Auth.Issuing.{parse_token}
use auth_proxy.Auth.Tokens.{Token, username_claim_key, get_claim}
use auth_proxy.Db.LocalUsers.{get_local_user}
use auth_proxy.Proxy.Exchange.{first_value}
use auth_proxy.Proxy.Exchange.Answers.{
  Answers, Answers-pure, Answers-if, Answers-bind, Answers-then, Answers-late, Answers-call,
}
use auth_proxy.Proxy.Responses.Answers.{is_own, auth_error-Answers, server_error-Answers}
use auth_proxy.Proxy.Tokens.{refuse, check_user, check_token, parsed, with_header, validate_token}

abbrev pub is_none : {A : Type 0} → Option A → Bool
is_none none = true
is_none (some _) = false

module _ (env : Env) {P : ℕ → Type 0} (own : (n : ℕ) → is_own n ≡ true → P n) where
  refuse-Answers : (n : ℕ) (msg : String) → P n → Answers P false is_none (refuse env n msg)
  unfolding refuse
  refuse-Answers n msg p =
      Answers-then true _ _ (auth_error-Answers env n msg p) (Answers-pure is_none none)

  check_user-Answers :
      (t : Token) (r : Result LocalUser) → Answers P false is_none (check_user env t r)
  unfolding check_user is_own
  check_user-Answers t (ok user) =
      Answers-if user.disable _ _ (refuse-Answers 401 _ (own 401 refl))
        (Answers-pure is_none (some t))
  check_user-Answers t (err e) =
      Answers-if (is_key_not_found e) _ _ (refuse-Answers 401 _ (own 401 refl)) (
        Answers-then true _ _ (server_error-Answers env e (own 500 refl))
          (Answers-late _ (Answers-pure is_none (some t))))

  check_token-Answers : (t : Token) → Answers P false is_none (check_token env t)
  unfolding check_token is_own
  check_token-Answers t =
      let username = get_claim t username_claim_key in
      Answers-if (is_empty username) _ _ (refuse-Answers 400 "Bad token" (own 400 refl)) (
        Answers-if (matches_username username) _ _
          (Answers-bind (λ _. false) _ _ (Answers-call false (get_local_user env username))
            (check_user-Answers t))
          (Answers-pure is_none (some t)))

  parsed-Answers : (r : Result Token) → Answers P false is_none (parsed env r)
  unfolding parsed is_own
  parsed-Answers (ok t) = check_token-Answers t
  parsed-Answers (err e) = refuse-Answers 400 "Bad token" (own 400 refl)

  with_header-Answers : (h : Option (List String)) → Answers P false is_none (with_header env h)
  unfolding with_header is_own
  with_header-Answers none = refuse-Answers 400 _ (own 400 refl)
  with_header-Answers (some values) =
      Answers-if (is_empty (first_value values)) _ _ (refuse-Answers 400 _ (own 400 refl)) (
        Answers-bind (λ _. false) _ _ (Answers-call false (parse_token env (first_value values)))
          parsed-Answers)

  pub validate_token-Answers : (req : Request) → Answers P false is_none (validate_token env req)
  unfolding validate_token
  validate_token-Answers req = with_header-Answers _
