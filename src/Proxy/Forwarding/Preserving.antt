-- ===== src/Proxy/Forwarding/Preserving.antt =====
-- Proxying a request, and the entry of the built-in administrator.
use auth_proxy.Prelude.{◌/◌, String, List, [], ◌∷◌, nat_eq}
use auth_proxy.Errors.{Result, ok, err}
use auth_proxy.Exec.Preserves.{
  Preserves, Preserves-pure, Preserves-throw, Preserves-if, Preserves-bind, Preserves-then,
}
use auth_proxy.Env.{Env, Header, Request, Response, Config}
use auth_proxy.Env.Sparing.{Sparing}
use auth_proxy.Auth.Tokens.{Token}
use auth_proxy.Auth.Filters.{RbacFilter}
use auth_proxy.Proxy.Exchange.Preserving.{Spares, Spares-call, Spares-emit, Spares-note_sent}
use auth_proxy.Proxy.Responses.Preserving.{server_error-Spares}
use auth_proxy.Proxy.Forwarding.{
  duplicate, set_values, set_headers, copy_response, body_read, response_received, send_upstream,
  written, answer, proxy_request,
}

module _ {W : Type 0} (I : W → Type 0) where
  set_values-Spares : (name : String) (vs : List String) → Spares I (set_values name vs)
  unfolding set_values
  set_values-Spares name [] = Preserves-pure tt
  set_values-Spares name (v ∷ vs) = Preserves-then (Spares-emit I _) (set_values-Spares name vs)

  set_headers-Spares : (h : Header) → Spares I (set_headers h)
  unfolding set_headers
  set_headers-Spares [] = Preserves-pure tt
  set_headers-Spares ((name, values) ∷ h) =
      Preserves-then (set_values-Spares name values) (set_headers-Spares h)

module _ (env : Env) {I : env.World → Type 0} (s : Sparing env I) (config : Config) where
  body_read-Spares : (resp : Response) (r : Result String) → Spares I (body_read env config resp r)
  unfolding body_read copy_response
  body_read-Spares resp (ok text) =
      Preserves-then (Spares-emit I _)
        (Preserves-then (set_headers-Spares I resp.header) (Preserves-pure (ok (resp, text))))
  body_read-Spares resp (err e) = Preserves-pure _

  response_received-Spares : (r : Result Response) → Spares I (response_received env config r)
  unfolding response_received
  response_received-Spares (ok resp) = body_read-Spares resp resp.body
  response_received-Spares (err e) = Preserves-pure _

  send_upstream-Spares : (req : Request) → Spares I (send_upstream env config req)
  unfolding send_upstream
  send_upstream-Spares req = Preserves-then (Spares-note_sent I (duplicate config req)) (
      Preserves-bind (Spares-call I (s.packages.client_do (duplicate config req)))
        response_received-Spares)

  answer-Spares :
      (t : Token) (filter : RbacFilter env) (r : Result (Response × String))
      → ((body : String) → Preserves I (filter t body))
      → Spares I (answer env config t filter r)
  unfolding answer written
  answer-Spares t filter (err e) kf = server_error-Spares env I e
  answer-Spares t filter (ok (resp, body)) kf =
      Preserves-if (nat_eq (resp.status_code / 100) 2)
        (Preserves-bind (Spares-call I (kf body)) after) (Spares-emit I _)
    where
      after : (r : Result String) → Spares I (written env config r)
      after (ok text) = Spares-emit I _
      after (err e) = Preserves-throw e

  pub proxy_request-Spares :
      (req : Request) (t : Token) (filter : RbacFilter env)
      → ((body : String) → Preserves I (filter t body))
      → Spares I (proxy_request env config req t filter)
  unfolding proxy_request
  proxy_request-Spares req t filter kf =
      Preserves-bind (send_upstream-Spares req) (λ r. answer-Spares t filter r kf)
