-- ===== src/Proxy/ResourceDetails.antt =====
-- proxy/rbac.go: the tenant of a named resource, and whether the user may use it.
pub mod Preserving
pub mod Owned
pub mod Answers
use auth_proxy.Prelude.{
  Bool, true, false, String, append, List, [], ◌∷◌, Option, none, some, nat_eq, ◌==◌, if◌then◌else◌,
}
use auth_proxy.Errors.{Error, errorf, panic, Result, ok, err}
use auth_proxy.Exec.{pure, throw, ◌>>=◌, ◌>>◌}
use auth_proxy.Types.{ops}
use auth_proxy.Env.{Env, Request, Response, Config, Kind}
use auth_proxy.Auth.Claims.{role_object, tenant_object}
use auth_proxy.Auth.Tokens.{Token}
use auth_proxy.Auth.Policy.{check_claims as token_check_claims}
use auth_proxy.Proxy.Exchange.{Handler, write_header, write_body, emit, call}
use auth_proxy.Proxy.Responses.{auth_error, server_error}

-- `getNetmasterEndpoint`
unfoldable pub netmaster_endpoint : Config → String → String → String
netmaster_endpoint config resource r_name = append "http://" (
    append config.netmaster_address
      (append "/api/v1/" (append resource (append "/" (append r_name "/")))))

module _ (env : Env) (config : Config) where
  open env use {World, http_get, object_json, tenant_name}

  failed : Handler World (Option String)
  failed = do server_error env (errorf "Failed to process request"); pure none

  -- A response other than 200 is passed on to the client.
  response_read : Response → Result String → Handler World (Option String)
  unfolding failed emit
  response_read resp (err e) = failed
  response_read resp (ok body) =
      if nat_eq resp.status_code 200
      then pure (some body)
      else do emit (write_header resp.status_code); emit (write_body body); pure none

  -- A failed GET has no response, and closing its body panics before the error is looked at.
  get_response : Result Response → Handler World (Option String)
  unfolding response_read
  get_response (err e) = throw (panic "nil pointer dereference")
  get_response (ok resp) = response_read resp resp.body

  posted : Result String → Handler World (Option String)
  unfolding failed
  posted (ok body) = pure (some body)
  posted (err e) = failed

  -- `getResourceDetails`
  unfoldable pub get_resource_details : Request → String → Handler World (Option String)
  unfolding failed get_response posted call
  get_resource_details req endpoint =
      if req.method == "POST"
      then posted req.body
      else do r ← call (http_get endpoint); get_response r

  claims_checked : Result (Unit {0}) → Handler World Bool
  claims_checked (ok _) = pure true
  claims_checked (err e) = do auth_error env 403 "Insufficient privileges"; pure false

  -- `checkClaims`
  unfoldable pub check_claims : Token → String → Handler World Bool
  unfolding claims_checked call
  check_claims t tenant = do
    r ← call (token_check_claims env t (tenant_object tenant ∷ role_object ops ∷ []))
    claims_checked r

  object_read : (k : Kind) → Token → Result (env.Object k) → Handler World Bool
  object_read k t (ok object) = check_claims t (tenant_name k object)
  object_read k t (err e) = do server_error env (errorf "Failed to process request"); pure false

  details_read : (k : Kind) → Token → Option String → Handler World Bool
  unfolding object_read
  details_read k t none = pure false
  details_read k t (some text) = object_read k t ((object_json k).unmarshal text)

  -- `authorized`
  unfoldable pub authorized : Request → Token → String → String → Kind → Handler World Bool
  unfolding details_read
  authorized req t resource r_name k = do
    details ← get_resource_details req (netmaster_endpoint config resource r_name)
    details_read k t details
