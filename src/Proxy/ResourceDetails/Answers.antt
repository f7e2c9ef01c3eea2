-- ===== src/Proxy/ResourceDetails/Answers.antt =====
-- The statuses of the replies to requests whose resource the user may not use.
use auth_proxy.Prelude.{
  ℕ, refl, true, false, not, ◌==◌, String, [], ◌∷◌, Option, none, some, nat_eq,
}
use auth_proxy.Errors.{is_panic, Result, ok, err}
use auth_proxy.Types.{ops}
use auth_proxy.Env.{Env, Request, Response, Config, Kind}
use auth_proxy.Auth.Claims.{role_object, tenant_object}
use auth_proxy.Auth.Tokens.{Token}
use auth_proxy.Auth.Policy.{check_claims as token_check_claims}
use auth_proxy.Proxy.Exchange.Answers.{
  Answers, Answers-pure, Answers-throw, Answers-if, Answers-bind, Answers-then, Answers-call,
  Answers-status, Answers-emit,
}
use auth_proxy.Proxy.Responses.Answers.{auth_error-Answers, server_error-Answers}
use auth_proxy.Proxy.Tokens.Answers.{is_none}
use auth_proxy.Proxy.ResourceDetails.{
  netmaster_endpoint, failed, response_read, get_response, posted, get_resource_details,
  claims_checked, check_claims, object_read, details_read, authorized,
}

module _ (env : Env) (config : Config) {P : ℕ → Type 0} (any : (n : ℕ) → P n) where
  failed-Answers : Answers P false is_none (failed env config)
  unfolding failed
  failed-Answers =
      Answers-then true _ _ (server_error-Answers env _ (any 500)) (Answers-pure is_none none)

  response_read-Answers :
      (resp : Response) (r : Result String)
      → Answers P false is_none (response_read env config resp r)
  unfolding response_read
  response_read-Answers resp (err e) = failed-Answers
  response_read-Answers resp (ok body) =
      Answers-if (nat_eq resp.status_code 200) _ _ (Answers-pure is_none (some body)) (
        Answers-then true _ _ (Answers-status resp.status_code (any resp.status_code))
          (Answers-then true _ _ (Answers-emit _) (Answers-pure is_none none)))

  get_response-Answers : (r : Result Response) → Answers P false is_none (get_response env config r)
  unfolding get_response is_panic
  get_response-Answers (err e) = Answers-throw false is_none _ refl
  get_response-Answers (ok resp) = response_read-Answers resp resp.body

  posted-Answers : (r : Result String) → Answers P false is_none (posted env config r)
  unfolding posted
  posted-Answers (ok body) = Answers-pure is_none (some body)
  posted-Answers (err e) = failed-Answers

  get_resource_details-Answers :
      (req : Request) (endpoint : String)
      → Answers P false is_none (get_resource_details env config req endpoint)
  unfolding get_resource_details
  get_resource_details-Answers req endpoint =
      Answers-if (req.method == "POST") _ _ (posted-Answers req.body) (
        Answers-bind (λ _. false) _ _ (Answers-call false (env.http_get endpoint))
          get_response-Answers)

  claims_checked-Answers :
      (r : Result (Unit {0})) → Answers P false not (claims_checked env config r)
  unfolding claims_checked
  claims_checked-Answers (ok _) = Answers-pure not true
  claims_checked-Answers (err e) =
      Answers-then true _ _ (auth_error-Answers env 403 _ (any 403)) (Answers-pure not false)

  pub check_claims-Answers :
      (t : Token) (tenant : String) → Answers P false not (check_claims env config t tenant)
  unfolding check_claims
  check_claims-Answers t tenant =
      Answers-bind (λ _. false) _ _
        (Answers-call false
          (token_check_claims env t (tenant_object tenant ∷ role_object ops ∷ [])))
        claims_checked-Answers

  object_read-Answers :
      (k : Kind) (t : Token) (r : Result (env.Object k))
      → Answers P false not (object_read env config k t r)
  unfolding object_read
  object_read-Answers k t (ok object) = check_claims-Answers t (env.tenant_name k object)
  object_read-Answers k t (err e) =
      Answers-then true _ _ (server_error-Answers env _ (any 500)) (Answers-pure not false)

  details_read-Answers :
      (k : Kind) (t : Token) (text : Option String)
      → Answers P (is_none text) not (details_read env config k t text)
  unfolding details_read
  details_read-Answers k t none = Answers-pure not false
  details_read-Answers k t (some text) =
      object_read-Answers k t ((env.object_json k).unmarshal text)

  pub authorized-Answers :
      (req : Request) (t : Token) (resource r_name : String) (k : Kind)
      → Answers P false not (authorized env config req t resource r_name k)
  unfolding authorized
  authorized-Answers req t resource r_name k =
      Answers-bind is_none _ _
        (get_resource_details-Answers req (netmaster_endpoint config resource r_name))
        (details_read-Answers k t)
