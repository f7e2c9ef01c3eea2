-- ===== src/Proxy/Authorizations.antt =====
-- The handlers of authorizations (proxy/handlers.go), and `convertAuthz` of proxy/helpers.go.
pub mod Answers
pub mod Preserving
use auth_proxy.Prelude.{◌&&◌, String, List, map, nat_eq, if◌then◌else◌}
use auth_proxy.Errors.{
  sentinel, unauthorized, parsing_request, unmarshaling_body, partial_failure_to_add_authz,
  is_key_not_found, is_illegal_operation, error_text, Result, ok, err,
}
use auth_proxy.Exec.{Exec, pure, throw, attempt, ◌>>=◌}
use auth_proxy.Text.{is_empty, has_prefix, trim_prefix}
use auth_proxy.Types.{Authorization, RoleType, ops, tenant_claim_key, role as parse_role}
use auth_proxy.Messages.{AddAuthorizationRequest, GetAuthorizationReply}
use auth_proxy.Env.{Env, Request}
use auth_proxy.Auth.Authorizations.{
  add_authorization as insert, delete_authorization as remove, get_authorization as find,
  list_authorizations as list_all,
}
use auth_proxy.Proxy.Exchange.{Handler, var, call}
use auth_proxy.Proxy.Responses.{server_error, process_status_codes}
use auth_proxy.Proxy.LocalUsers.Helpers.{Reply}

-- `convertAuthz`; only a tenant's claim key has a tenant's name.
unfoldable pub convert_authz : Authorization → GetAuthorizationReply
unfolding has_prefix trim_prefix
convert_authz a = record {
  authz_uuid = a.uuid;
  principal_name = a.principal_name;
  local = a.local;
  role = a.claim_value;
  tenant_name =
      if has_prefix a.claim_key tenant_claim_key
      then trim_prefix a.claim_key tenant_claim_key
      else "";
}

module _ (env : Env) where
  open env use {World, add_authorization_json, reply_json, replies_json}

  answer : Reply → Handler World (Unit {0})
  answer (status_code, resp) = process_status_codes env status_code resp

  respond : Result Reply → Handler World (Unit {0})
  unfolding answer
  respond (ok reply) = answer reply
  respond (err e) = throw e

  -- The reply that shows a new authorization; without JSON the authorization is deleted again, and
  -- the error of that is dropped.
  added_shown : Authorization → Result String → Exec World Reply
  added_shown a (ok text) = pure (201, text)
  added_shown a (err e) = do
    r ← attempt (remove env a.uuid)
    pure (500, error_text (sentinel partial_failure_to_add_authz))

  added : Result Authorization → Exec World Reply
  unfolding added_shown
  added (ok a) = added_shown a (reply_json.marshal (convert_authz a))
  added (err e) = pure (
      if is_illegal_operation e
      then (400, error_text e)
      else (500, error_text (sentinel unauthorized)))

  with_role : AddAuthorizationRequest → Result RoleType → Exec World Reply
  unfolding added
  with_role req (err e) = pure (400, "illegal role specified")
  with_role req (ok r) =
      if nat_eq r ops && is_empty req.tenant_name
      then pure (400, "ops role requires a tenant to be specified")
      else do a ← attempt (insert env req.tenant_name r req.principal_name req.local); added a

  -- `addAuthorization`, once the body is read.
  unfoldable pub add_requested : AddAuthorizationRequest → Exec World Reply
  unfolding with_role
  add_requested req =
      if is_empty req.principal_name
      then pure (400, "principal name is missing")
      else with_role req (parse_role req.role)

  unmarshaled : Result AddAuthorizationRequest → Handler World (Unit {0})
  unfolding respond call
  unmarshaled (ok req) = do r ← call (add_requested req); respond r
  unmarshaled (err e) = server_error env (sentinel unmarshaling_body)

  body_read : Result String → Handler World (Unit {0})
  unfolding unmarshaled
  body_read (ok body) = unmarshaled (add_authorization_json.unmarshal body)
  body_read (err e) = server_error env (sentinel parsing_request)

  -- `addAuthorization`
  unfoldable pub add_authorization : Request → Handler World (Unit {0})
  unfolding body_read
  add_authorization req = body_read req.body

  deleted : Result (Unit {0}) → Reply
  deleted (ok _) = (204, "")
  deleted (err e) =
      if is_key_not_found e
      then (404, "")
      else if is_illegal_operation e
      then (400, error_text e)
      else (500, error_text e)

  -- `deleteAuthorization`
  unfoldable pub delete_authorization : Request → Handler World (Unit {0})
  unfolding deleted call answer
  delete_authorization req = do r ← call (remove env (var req.vars "authzUUID")); answer (deleted r)

  shown : Result String → Reply
  shown (ok text) = (200, text)
  shown (err e) = (500, error_text e)

  found : Result Authorization → Reply
  unfolding shown
  found (ok a) = shown (reply_json.marshal (convert_authz a))
  found (err e) = if is_key_not_found e then (404, "") else (500, error_text e)

  -- `getAuthorization`
  unfoldable pub get_authorization : Request → Handler World (Unit {0})
  unfolding found call answer
  get_authorization req = do r ← call (find env (var req.vars "authzUUID")); answer (found r)

  listed : Result (List Authorization) → Reply
  unfolding shown
  listed (ok auths) = shown (replies_json.marshal (map convert_authz auths))
  listed (err e) = (500, error_text e)

  -- `listAuthorizations`
  unfoldable pub list_authorizations : Request → Handler World (Unit {0})
  unfolding listed call answer
  list_authorizations req = do r ← call (list_all env); answer (listed r)
