-- ===== src/Proxy/ResourceDetails/Owned.antt =====
-- What `authorized` and `checkClaims` have established when they let a request through.
use auth_proxy.Prelude.{true, ◌≡◌, refl, String, [], ◌∷◌, Option, none, some, ap, ◌∙◌}
use auth_proxy.Errors.{Result, ok, err}
use auth_proxy.Exec.{continue}
use auth_proxy.Types.{ops}
use auth_proxy.Env.{Env, Request, Response, Config, Kind}
use auth_proxy.Auth.Claims.{role_object, tenant_object}
use auth_proxy.Auth.Tokens.{Token}
use auth_proxy.Auth.Policy.{check_claims as token_check_claims}
use auth_proxy.Proxy.Exchange.{Exchange, emit, call}
use auth_proxy.Proxy.Exchange.Settled.{call-ok}
use auth_proxy.Proxy.Exchange.Unsent.{SendsNothing, unsent}
use auth_proxy.Proxy.Responses.{auth_error, server_error}
use auth_proxy.Proxy.Tokens.Unsent.{auth_error-SendsNothing, server_error-SendsNothing}
use auth_proxy.Proxy.ResourceDetails.{
  netmaster_endpoint, failed, response_read, posted, get_response, get_resource_details,
  claims_checked, check_claims, object_read, details_read, authorized,
}

module _ (env : Env) (config : Config) where
  failed-SendsNothing : SendsNothing (failed env config)
  unfolding failed
  failed-SendsNothing = search (unsent, server_error-SendsNothing)

  response_read-SendsNothing :
      (resp : Response) (b : Result String) → SendsNothing (response_read env config resp b)
  unfolding response_read
  response_read-SendsNothing resp (ok body) = search unsent
  response_read-SendsNothing resp (err e) = failed-SendsNothing

  get_response-SendsNothing : (r : Result Response) → SendsNothing (get_response env config r)
  unfolding get_response
  get_response-SendsNothing (ok resp) = response_read-SendsNothing resp resp.body
  get_response-SendsNothing (err e) = search unsent

  posted-SendsNothing : (r : Result String) → SendsNothing (posted env config r)
  unfolding posted
  posted-SendsNothing (ok body) = search unsent
  posted-SendsNothing (err e) = failed-SendsNothing

  get_resource_details-SendsNothing :
      (req : Request) (endpoint : String)
      → SendsNothing (get_resource_details env config req endpoint)
  unfolding get_resource_details
  get_resource_details-SendsNothing req endpoint =
      search (unsent, get_response-SendsNothing, posted-SendsNothing)

  claims_checked-SendsNothing : (r : Result (Unit {0})) → SendsNothing (claims_checked env config r)
  unfolding claims_checked
  claims_checked-SendsNothing (ok _) = search unsent
  claims_checked-SendsNothing (err e) = search (unsent, auth_error-SendsNothing)

  pub check_claims-SendsNothing :
      (t : Token) (tenant : String) → SendsNothing (check_claims env config t tenant)
  unfolding check_claims
  check_claims-SendsNothing t tenant = search (unsent, claims_checked-SendsNothing)

  object_read-SendsNothing :
      (k : Kind) (t : Token) (r : Result (env.Object k))
      → SendsNothing (object_read env config k t r)
  unfolding object_read
  object_read-SendsNothing k t (ok object) = check_claims-SendsNothing t _
  object_read-SendsNothing k t (err e) = search (unsent, server_error-SendsNothing)

  details_read-SendsNothing :
      (k : Kind) (t : Token) (o : Option String) → SendsNothing (details_read env config k t o)
  unfolding details_read
  details_read-SendsNothing k t none = search unsent
  details_read-SendsNothing k t (some text) = object_read-SendsNothing k t _

  pub authorized-SendsNothing :
      (req : Request) (t : Token) (resource r_name : String) (k : Kind)
      → SendsNothing (authorized env config req t resource r_name k)
  unfolding authorized
  authorized-SendsNothing req t resource r_name k =
      search (unsent, get_resource_details-SendsNothing, details_read-SendsNothing)

  -- The access that a tenant's user needs was granted in some state of the world.
  pub record MayUse (t : Token) (tenant : String) : Type 0 where
    pub world : env.World
    pub granted :
        (token_check_claims env t (tenant_object tenant ∷ role_object ops ∷ []) world).0 ≡ ok tt

  claims_checked-true :
      (r : Result (Unit {0})) (x : Exchange env.World)
      → (claims_checked env config r x).0 ≡ ok true
      → r ≡ ok tt
  unfolding claims_checked auth_error emit
  claims_checked-true (ok tt) x h = refl
  claims_checked-true (err e) x h = cc

  claims_continued :
      (s : Result (Result (Unit {0}))) (x : Exchange env.World)
      → (continue s (claims_checked env config) x).0 ≡ ok true
      → s ≡ ok (ok tt)
  claims_continued (ok r) x h = ap ok (claims_checked-true r x h)
  claims_continued (err e) x h = cc

  pub check_claims-true :
      (t : Token) (tenant : String) (x : Exchange env.World)
      → (check_claims env config t tenant x).0 ≡ ok true
      → MayUse t tenant
  unfolding check_claims call
  check_claims-true t tenant x h = record {
    world = x.world;
    granted =
        call-ok (token_check_claims env t (tenant_object tenant ∷ role_object ops ∷ [])) x tt
          (claims_continued _ _ h);
  }

  -- The tenant's user may use the object that the request's details, whatever they were read
  -- from, describe.
  pub record OwnObject (req : Request) (t : Token) (resource r_name : String) (k : Kind)
      : Type 0 where
    pub before : Exchange env.World
    pub details : String
    pub object : env.Object k
    pub obtained :
        (get_resource_details env config req (netmaster_endpoint config resource r_name) before).0
        ≡ ok (some details)
    pub described : (env.object_json k).unmarshal details ≡ ok object
    pub may_use : MayUse t (env.tenant_name k object)

  -- An object that was described by its JSON and may be used.
  record Described (t : Token) (k : Kind) (o : Option String) : Type 0 where
    details : String
    object : env.Object k
    is_some : o ≡ some details
    described : (env.object_json k).unmarshal details ≡ ok object
    may_use : MayUse t (env.tenant_name k object)

  object_read-true :
      (k : Kind) (t : Token) (details : String) (r : Result (env.Object k)) (x : Exchange env.World)
      → (env.object_json k).unmarshal details ≡ r
      → (object_read env config k t r x).0 ≡ ok true
      → Described t k (some details)
  unfolding object_read server_error emit
  object_read-true k t details (ok object) x eq h = record {
    details = details;
    object = object;
    is_some = refl;
    described = eq;
    may_use = check_claims-true t _ x h;
  }
  object_read-true k t details (err e) x eq h = cc

  details_read-true :
      (k : Kind) (t : Token) (r : Result (Option String)) (x : Exchange env.World)
      → (continue r (details_read env config k t) x).0 ≡ ok true
      → (o : Option String) × (r ≡ ok o) × Described t k o
  unfolding details_read
  details_read-true k t (ok none) x h = cc
  details_read-true k t (ok (some text)) x h =
      (some text, refl, object_read-true k t text _ x refl h)
  details_read-true k t (err e) x h = cc

  pub authorized-true :
      (req : Request) (t : Token) (resource r_name : String) (k : Kind) (x : Exchange env.World)
      → (authorized env config req t resource r_name k x).0 ≡ ok true
      → OwnObject req t resource r_name k
  unfolding authorized
  authorized-true req t resource r_name k x h =
      let (o, eq, d) = details_read-true k t _ _ h in
      record {
        before = x;
        details = d.details;
        object = d.object;
        obtained = eq ∙ ap ok d.is_some;
        described = d.described;
        may_use = d.may_use;
      }
