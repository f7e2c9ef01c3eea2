-- ===== src/Proxy/Forwarding.antt =====
-- `ProxyRequest` of proxy/proxy.go and `proxyRequest` of proxy/rbac.go.
pub mod Sent
pub mod Headers
pub mod Answers
pub mod Preserving
use auth_proxy.Prelude.{
  ℕ, ◌/◌, ◌++◌, String, append, List, [], ◌∷◌, nat_eq, Bool, ◌==◌, if◌then◌else◌,
}
use auth_proxy.Errors.{Error, errorf, error_text, Result, ok, err}
use auth_proxy.Exec.{Exec, pure, throw, lift, ◌>>=◌, ◌>>◌}
use auth_proxy.Env.{Env, Header, Request, Response, Config}
use auth_proxy.Auth.Tokens.{Token}
use auth_proxy.Auth.Filters.{RbacFilter}
use auth_proxy.Proxy.Exchange.{Handler, set_header, write_header, write_body, emit, call, note_sent}
use auth_proxy.Proxy.Responses.{server_error}

-- `Header.Add`
unfoldable pub add_header : Header → String → String → Header
add_header [] name value = (name, value ∷ []) ∷ []
add_header ((n, vs) ∷ h) name value =
    let rest = add_header h name value in
    if n == name then (n, vs ++ value ∷ []) ∷ h else (n, vs) ∷ rest

-- The duplicate of a request that is sent to netmaster; its URL has netmaster's address, and the
-- request's URI for a path.
unfoldable pub duplicate : Config → Request → Request
unfolding add_header
duplicate config req = record req {
  url = record { scheme = "http"; host = config.netmaster_address; path = req.request_uri };
  request_uri = "";
  header =
      add_header (add_header req.header "X-Forwarded-For" req.remote_addr) "X-Forwarder"
        (append config.name (append " " config.version));
}

module _ {W : Type 0} where
  set_values : String → List String → Handler W (Unit {0})
  unfolding emit
  set_values name [] = pure tt
  set_values name (v ∷ vs) = do emit (set_header name v); set_values name vs

  -- The loop that sets netmaster's headers.
  unfoldable pub set_headers : Header → Handler W (Unit {0})
  unfolding set_values
  set_headers [] = pure tt
  set_headers ((name, values) ∷ h) = do set_values name values; set_headers h

module _ (env : Env) (config : Config) where
  open env use {World, client_do}

  -- The end of `ProxyRequest`: the status is written before the headers are set.
  copy_response : Response → String → Handler World (Result (Response × String))
  unfolding emit
  copy_response resp text = do
    emit (write_header resp.status_code)
    set_headers resp.header
    pure (ok (resp, text))

  body_read : Response → Result String → Handler World (Result (Response × String))
  unfolding copy_response
  body_read resp (ok text) = copy_response resp text
  body_read resp (err e) =
      pure (err (errorf (append "Failed to read body from response: " (error_text e))))

  response_received : Result Response → Handler World (Result (Response × String))
  unfolding body_read
  response_received (ok resp) = body_read resp resp.body
  response_received (err e) =
      pure (err (errorf (append "Failed to perform duplicate request: " (error_text e))))

  -- `ProxyRequest`
  unfoldable pub send_upstream : Request → Handler World (Result (Response × String))
  unfolding note_sent call response_received
  send_upstream req = do
    note_sent (duplicate config req)
    r ← call (client_do (duplicate config req))
    response_received r

  written : Result String → Handler World (Unit {0})
  unfolding emit
  written (ok text) = emit (write_body text)
  written (err e) = throw e

  answer : Token → RbacFilter env → Result (Response × String) → Handler World (Unit {0})
  unfolding written emit
  answer t filter (err e) = server_error env e
  answer t filter (ok (resp, body)) =
      if nat_eq (resp.status_code / 100) 2
      then (do r ← call (filter t body); written r)
      else emit (write_body body)

  -- `proxyRequest`
  unfoldable pub proxy_request : Request → Token → RbacFilter env → Handler World (Unit {0})
  unfolding answer
  proxy_request req t filter = do r ← send_upstream req; answer t filter r
