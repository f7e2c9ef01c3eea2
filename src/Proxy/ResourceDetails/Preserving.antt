-- ===== src/Proxy/ResourceDetails/Preserving.antt =====
-- Looking for the tenant of a resource, and the entry of the built-in administrator.
use auth_proxy.Prelude.{◌==◌, true, false, String, [], ◌∷◌, Option, none, some, nat_eq}
use auth_proxy.Errors.{Result, ok, err}
use auth_proxy.Exec.Preserves.{
  Preserves-pure, Preserves-throw, Preserves-if, Preserves-bind, Preserves-then,
}
use auth_proxy.Types.{ops}
use auth_proxy.Env.{Env, Request, Response, Config, Kind}
use auth_proxy.Env.Sparing.{Sparing}
use auth_proxy.Auth.Claims.{role_object, tenant_object}
use auth_proxy.Auth.Tokens.{Token}
use auth_proxy.Auth.Policy.Preserving.{check_claims-Preserves}
use auth_proxy.Proxy.Exchange.Preserving.{Spares, Spares-call, Spares-emit}
use auth_proxy.Proxy.Responses.Preserving.{auth_error-Spares, server_error-Spares}
use auth_proxy.Proxy.ResourceDetails.{
  netmaster_endpoint, failed, response_read, get_response, posted, get_resource_details,
  claims_checked, check_claims, object_read, details_read, authorized,
}

module _ (env : Env) {I : env.World → Type 0} (s : Sparing env I) (config : Config) where
  failed-Spares : Spares I (failed env config)
  unfolding failed
  failed-Spares = Preserves-then (server_error-Spares env I _) (Preserves-pure none)

  response_read-Spares :
      (resp : Response) (r : Result String) → Spares I (response_read env config resp r)
  unfolding response_read
  response_read-Spares resp (err e) = failed-Spares
  response_read-Spares resp (ok body) =
      Preserves-if (nat_eq resp.status_code 200) (Preserves-pure (some body))
        (Preserves-then (Spares-emit I _) (Preserves-then (Spares-emit I _) (Preserves-pure none)))

  get_response-Spares : (r : Result Response) → Spares I (get_response env config r)
  unfolding get_response
  get_response-Spares (err e) = Preserves-throw _
  get_response-Spares (ok resp) = response_read-Spares resp resp.body

  posted-Spares : (r : Result String) → Spares I (posted env config r)
  unfolding posted
  posted-Spares (ok body) = Preserves-pure (some body)
  posted-Spares (err e) = failed-Spares

  get_resource_details-Spares :
      (req : Request) (endpoint : String) → Spares I (get_resource_details env config req endpoint)
  unfolding get_resource_details
  get_resource_details-Spares req endpoint =
      Preserves-if (req.method == "POST") (posted-Spares req.body)
        (Preserves-bind (Spares-call I (s.packages.http_get endpoint)) get_response-Spares)

  pub check_claims-Spares :
      (t : Token) (tenant : String) → Spares I (check_claims env config t tenant)
  unfolding check_claims claims_checked
  check_claims-Spares t tenant =
      Preserves-bind
        (Spares-call I
          (check_claims-Preserves env s t (tenant_object tenant ∷ role_object ops ∷ [])))
        after
    where
      after : (r : Result (Unit {0})) → Spares I (claims_checked env config r)
      after (ok _) = Preserves-pure true
      after (err e) = Preserves-then (auth_error-Spares env I 403 _) (Preserves-pure false)

  details_read-Spares :
      (k : Kind) (t : Token) (text : Option String) → Spares I (details_read env config k t text)
  unfolding details_read object_read
  details_read-Spares k t none = Preserves-pure false
  details_read-Spares k t (some text) = after ((env.object_json k).unmarshal text)
    where
      after : (r : Result (env.Object k)) → Spares I (object_read env config k t r)
      after (ok object) = check_claims-Spares t (env.tenant_name k object)
      after (err e) = Preserves-then (server_error-Spares env I _) (Preserves-pure false)

  pub authorized-Spares :
      (req : Request) (t : Token) (resource r_name : String) (k : Kind)
      → Spares I (authorized env config req t resource r_name k)
  unfolding authorized
  authorized-Spares req t resource r_name k =
      Preserves-bind (get_resource_details-Spares req (netmaster_endpoint config resource r_name))
        (details_read-Spares k t)
