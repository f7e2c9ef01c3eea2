-- ===== src/Proxy/Forwarding/Answers.antt =====
-- The statuses of the replies to proxied requests.
use auth_proxy.Prelude.{ℕ, ◌/◌, Bool, true, false, String, List, [], ◌∷◌, nat_eq}
use auth_proxy.Errors.{Result, ok, err}
use auth_proxy.Exec.Returns.{Returns, Anything}
use auth_proxy.Env.{Env, Header, Request, Response, Config}
use auth_proxy.Auth.Tokens.{Token}
use auth_proxy.Auth.Filters.{RbacFilter}
use auth_proxy.Proxy.Exchange.Answers.{
  Answers, Answers-pure, Answers-if, Answers-bind, Answers-then, Answers-call, Answers-returned,
  Answers-status, Answers-emit, Answers-header,
}
use auth_proxy.Proxy.Responses.Answers.{server_error-Answers}
use auth_proxy.Proxy.Exchange.{note_sent}
use auth_proxy.Proxy.Forwarding.{
  duplicate, set_values, set_headers, copy_response, body_read, response_received, send_upstream,
  written, answer, proxy_request,
}

-- A response that was read was passed on, with its status.
abbrev passed_on : {A : Type 0} → Result A → Bool
passed_on (ok _) = true
passed_on (err _) = false

module _ {W : Type 0} {P : ℕ → Type 0} where
  set_values-Answers :
      (name : String) (vs : List String) → Answers {W = W} P true (λ _. true) (set_values name vs)
  unfolding set_values
  set_values-Answers name [] = Answers-pure (λ _. true) tt
  set_values-Answers name (v ∷ vs) =
      Answers-then true _ _ (Answers-header true name v) (set_values-Answers name vs)

  set_headers-Answers : (h : Header) → Answers {W = W} P true (λ _. true) (set_headers h)
  unfolding set_headers
  set_headers-Answers [] = Answers-pure (λ _. true) tt
  set_headers-Answers ((name, values) ∷ h) =
      Answers-then true _ _ (set_values-Answers name values) (set_headers-Answers h)

  note_sent-Answers : (r : Request) → Answers {W = W} P false (λ _. false) (note_sent r)
  unfolding note_sent
  note_sent-Answers r = record { at = λ x h. h }

module _ (env : Env) (config : Config) {P : ℕ → Type 0} (any : (n : ℕ) → P n) where
  body_read-Answers :
      (resp : Response) (r : Result String)
      → Answers P false passed_on (body_read env config resp r)
  unfolding body_read copy_response
  body_read-Answers resp (ok text) =
      Answers-then true _ _ (Answers-status resp.status_code (any resp.status_code)) (
        Answers-then true _ _ (set_headers-Answers resp.header)
          (Answers-pure passed_on (ok (resp, text))))
  body_read-Answers resp (err e) = Answers-pure passed_on (err _)

  response_received-Answers :
      (r : Result Response) → Answers P false passed_on (response_received env config r)
  unfolding response_received
  response_received-Answers (ok resp) = body_read-Answers resp resp.body
  response_received-Answers (err e) = Answers-pure passed_on (err _)

  send_upstream-Answers : (req : Request) → Answers P false passed_on (send_upstream env config req)
  unfolding send_upstream
  send_upstream-Answers req = Answers-then false _ _ (note_sent-Answers (duplicate config req)) (
      Answers-bind (λ _. false) _ _ (Answers-call false (env.client_do (duplicate config req)))
        response_received-Answers)

  answer-Answers :
      (t : Token) (filter : RbacFilter env) (r : Result (Response × String))
      → ((body : String) → Returns Anything (filter t body))
      → Answers P (passed_on r) (λ _. true) (answer env config t filter r)
  unfolding answer written
  answer-Answers t filter (err e) kf = server_error-Answers env e (any 500)
  answer-Answers t filter (ok (resp, body)) kf =
      Answers-if (nat_eq (resp.status_code / 100) 2) _ _
        (Answers-returned (filter t body) (written env config) (kf body) (λ text _. Answers-emit _))
        (Answers-emit _)

  pub proxy_request-Answers :
      (req : Request) (t : Token) (filter : RbacFilter env)
      → ((body : String) → Returns Anything (filter t body))
      → Answers P false (λ _. true) (proxy_request env config req t filter)
  unfolding proxy_request
  proxy_request-Answers req t filter kf =
      Answers-bind passed_on _ _ (send_upstream-Answers req) (λ r. answer-Answers t filter r kf)
