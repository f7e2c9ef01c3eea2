-- ===== src/Proxy/Forwarding/Sent.antt =====
-- What `ProxyRequest` forwards to netmaster.
use auth_proxy.Prelude.{◌≡◌, String, List, [], ◌∷◌, ◌++◌}
use auth_proxy.Errors.{Result, ok, err}
use auth_proxy.Exec.{◌>>=◌}
use auth_proxy.Env.{Env, Request, Response, Config}
use auth_proxy.Auth.Tokens.{Token}
use auth_proxy.Auth.Filters.{RbacFilter}
use auth_proxy.Proxy.Exchange.{Exchange, call, note_sent}
use auth_proxy.Proxy.Exchange.Unsent.{SendsNothing, SendsNothing-then, SendsNothing-emit, unsent}
use auth_proxy.Proxy.Tokens.Unsent.{server_error-SendsNothing}
use auth_proxy.Proxy.Forwarding.{
  duplicate, set_values, set_headers, copy_response, body_read, response_received, send_upstream,
  written, answer, proxy_request,
}

module _ {W : Type 0} where
  set_values-SendsNothing :
      (name : String) (vs : List String) → SendsNothing {W = W} (set_values name vs)
  unfolding set_values
  set_values-SendsNothing name [] = search unsent
  set_values-SendsNothing name (v ∷ vs) =
      SendsNothing-then _ _ (SendsNothing-emit _) (set_values-SendsNothing name vs)

  set_headers-SendsNothing :
      (h : List (String × List String)) → SendsNothing {W = W} (set_headers h)
  unfolding set_headers
  set_headers-SendsNothing [] = search unsent
  set_headers-SendsNothing ((name, vs) ∷ h) =
      search (unsent, set_values-SendsNothing name vs, set_headers-SendsNothing h)

module _ (env : Env) (config : Config) where
  body_read-SendsNothing :
      (resp : Response) (r : Result String) → SendsNothing (body_read env config resp r)
  unfolding body_read copy_response
  body_read-SendsNothing resp (ok text) = search (unsent, set_headers-SendsNothing)
  body_read-SendsNothing resp (err e) = search unsent

  response_received-SendsNothing :
      (r : Result Response) → SendsNothing (response_received env config r)
  unfolding response_received
  response_received-SendsNothing (ok resp) = body_read-SendsNothing resp _
  response_received-SendsNothing (err e) = search unsent

  written-SendsNothing : (r : Result String) → SendsNothing (written env config r)
  unfolding written
  written-SendsNothing (ok text) = search unsent
  written-SendsNothing (err e) = search unsent

  answer-SendsNothing :
      (t : Token) (filter : RbacFilter env) (r : Result (Response × String))
      → SendsNothing (answer env config t filter r)
  unfolding answer
  answer-SendsNothing t filter (ok (resp, body)) = search (unsent, written-SendsNothing)
  answer-SendsNothing t filter (err e) = server_error-SendsNothing env e

  upstream-SendsNothing :
      (req : Request) (t : Token) (filter : RbacFilter env)
      → SendsNothing (
          call (env.client_do (duplicate config req))
          >>= response_received env config
          >>= answer env config t filter)
  upstream-SendsNothing req t filter =
      search (unsent, response_received-SendsNothing, answer-SendsNothing)

  -- Proxying sends the duplicate of the request and nothing else, whatever netmaster answers.
  pub proxy_request-sends :
      (req : Request) (t : Token) (filter : RbacFilter env) (x : Exchange env.World)
      → (proxy_request env config req t filter x).1.sent ≡ x.sent ++ duplicate config req ∷ []
  unfolding proxy_request send_upstream note_sent
  proxy_request-sends req t filter x =
      (upstream-SendsNothing req t filter).at
        (record x { sent = x.sent ++ duplicate config req ∷ [] })
