-- ===== src/Proxy/Login/Answers.antt =====
-- The login: the statuses of the replies.
use auth_proxy.Prelude.{ℕ, ◌≡◌, ◌||◌, refl, true, false, String, List}
use auth_proxy.Errors.{Result, ok, err}
use auth_proxy.Exec.{Exec}
use auth_proxy.Text.{is_empty}
use auth_proxy.Messages.{LoginReq}
use auth_proxy.Env.{Env, Request}
use auth_proxy.Auth.Login.{authenticate}
use auth_proxy.Proxy.Exchange.Answers.{
  Answers, Answers-if, Answers-bind, Answers-then, Answers-call, Answers-status, Answers-emit,
}
use auth_proxy.Proxy.Responses.Answers.{
  is_own, headers-Answers, auth_error-Answers, server_error-Answers,
}
use auth_proxy.Proxy.Login.{authenticated, login, unmarshaled, body_read, login_handler}

module _ (env : Env) (ldap_authenticate : String → String → Exec env.World (String × List String))
    {P : ℕ → Type 0} (own : (n : ℕ) → is_own n ≡ true → P n) where
  authenticated-Answers :
      (r : Result String) → Answers P false (λ _. true) (authenticated env ldap_authenticate r)
  unfolding authenticated is_own
  authenticated-Answers (ok token_str) =
      Answers-then true _ _ (Answers-status 200 (own 200 refl)) (Answers-emit _)
  authenticated-Answers (err e) = auth_error-Answers env 401 _ (own 401 refl)

  login-Answers : (req : LoginReq) → Answers P false (λ _. true) (login env ldap_authenticate req)
  unfolding login is_own
  login-Answers req =
      Answers-if (is_empty req.username || is_empty req.password) _ _
        (auth_error-Answers env 400 _ (own 400 refl))
        (Answers-bind (λ _. false) _ _
          (Answers-call false (authenticate env ldap_authenticate req.username req.password))
          authenticated-Answers)

  unmarshaled-Answers :
      (r : Result LoginReq) → Answers P false (λ _. true) (unmarshaled env ldap_authenticate r)
  unfolding unmarshaled is_own
  unmarshaled-Answers (ok req) = login-Answers req
  unmarshaled-Answers (err e) = server_error-Answers env _ (own 500 refl)

  body_read-Answers :
      (r : Result String) → Answers P false (λ _. true) (body_read env ldap_authenticate r)
  unfolding body_read is_own
  body_read-Answers (ok body) = unmarshaled-Answers (env.login_req_json.unmarshal body)
  body_read-Answers (err e) = server_error-Answers env _ (own 500 refl)

  pub login_handler-Answers :
      (req : Request) → Answers P false (λ _. true) (login_handler env ldap_authenticate req)
  unfolding login_handler
  login_handler-Answers req =
      Answers-then false _ _ (headers-Answers false) (body_read-Answers req.body)
