-- ===== src/Proxy/Forwarding/Headers.antt =====
-- What becomes of netmaster's headers.
use auth_proxy.Prelude.{ℕ, ◌≡◌, refl, ◌∙◌, ap, String, List, [], ◌∷◌, ◌++◌, some}
use auth_proxy.Errors.{Result, ok, err}
use auth_proxy.Exec.{continue, pure}
use auth_proxy.Env.{Env, Header, Request, Response, Config}
use auth_proxy.Proxy.Exchange.{write_header, Exchange, received, emit, call, note_sent}
use auth_proxy.Proxy.Exchange.Receiving.{received-late_header, received-status_written}
use auth_proxy.Proxy.Forwarding.{
  set_values, set_headers, copy_response, body_read, response_received, send_upstream,
}

module _ {W : Type 0} where
  -- Headers that are set after the status are not sent.
  set_values-late :
      (name : String) (vs : List String) (x : Exchange W) (n : ℕ)
      → (received x.out).status ≡ some n
      → received (set_values name vs x).1.out ≡ received x.out
  unfolding set_values emit
  set_values-late name [] x n h = refl
  set_values-late name (v ∷ vs) x n h =
      let same = received-late_header x.out n name v h in
      set_values-late name vs _ n (ap (λ r. r.status) same ∙ h) ∙ same

  after_values :
      (hs : Header) (r : Result (Unit {0})) (y : Exchange W)
      → received (set_headers hs y).1.out ≡ received y.out
      → received (continue r (λ _. set_headers hs) y).1.out ≡ received y.out
  after_values hs (ok _) y h = h
  after_values hs (err e) y h = refl

  set_headers-late :
      (hs : Header) (x : Exchange W) (n : ℕ)
      → (received x.out).status ≡ some n
      → received (set_headers hs x).1.out ≡ received x.out
  unfolding set_headers
  set_headers-late [] x n h = refl
  set_headers-late ((name, vs) ∷ hs) x n h =
      let same = set_values-late name vs x n h in
      let y : Exchange W = (set_values name vs x).1 in
      after_values hs (set_values name vs x).0 y
        (set_headers-late hs y n (ap (λ r. r.status) same ∙ h))
      ∙ same

  after_headers :
      {A : Type 0} (a : A) (r : Result (Unit {0})) (y : Exchange W)
      → (continue r (λ _. pure a) y).1 ≡ y
  after_headers a (ok _) y = refl
  after_headers a (err e) y = refl

module _ (env : Env) (config : Config) where
  copied :
      (resp : Response) (body : String) (x : Exchange env.World)
      → (received (copy_response env config resp body x).1.out).headers ≡ (received x.out).headers
  unfolding copy_response emit
  copied resp body x =
      let (headers, (n, status)) = received-status_written x.out resp.status_code in
      let y : Exchange env.World = record x { out = x.out ++ write_header resp.status_code ∷ [] } in
      ap (λ z. (received z.out).headers)
        (after_headers (ok (resp, body)) (set_headers resp.header y).0
          (set_headers resp.header y).1)
      ∙ ap (λ r. r.headers) (set_headers-late resp.header y n status)
      ∙ headers

  body_copied :
      (resp : Response) (r : Result String) (x : Exchange env.World)
      → (received (body_read env config resp r x).1.out).headers ≡ (received x.out).headers
  unfolding body_read
  body_copied resp (ok body) x = copied resp body x
  body_copied resp (err e) x = refl

  response_copied :
      (s : Result (Result Response)) (x : Exchange env.World)
      → (received (continue s (response_received env config) x).1.out).headers
        ≡ (received x.out).headers
  unfolding response_received
  response_copied (ok (ok resp)) x = body_copied resp resp.body x
  response_copied (ok (err e)) x = refl
  response_copied (err e) x = refl

  -- `ProxyRequest` adds no header to the response that the client receives: whatever headers
  -- netmaster answers with, they come too late.
  pub send_upstream-headers :
      (req : Request) (x : Exchange env.World)
      → (received (send_upstream env config req x).1.out).headers ≡ (received x.out).headers
  unfolding send_upstream note_sent call
  send_upstream-headers req x = response_copied _ _
