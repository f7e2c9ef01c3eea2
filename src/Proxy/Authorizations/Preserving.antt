-- ===== src/Proxy/Authorizations/Preserving.antt =====
-- The handlers of authorizations, and the entry of the built-in administrator.
use auth_proxy.Prelude.{◌&&◌, String, nat_eq}
use auth_proxy.Errors.{Result, ok, err, sentinel, error_text, partial_failure_to_add_authz}
use auth_proxy.Exec.Preserves.{
  Preserves, Preserves-pure, Preserves-throw, Preserves-attempt, Preserves-if, Preserves-bind,
}
use auth_proxy.Text.{is_empty}
use auth_proxy.Types.{Authorization, RoleType, ops, role as parse_role}
use auth_proxy.Messages.{AddAuthorizationRequest}
use auth_proxy.Env.{Env, Request}
use auth_proxy.Env.Sparing.{Sparing}
use auth_proxy.Auth.Authorizations.Preserving.{
  add_authorization-Preserves, delete_authorization-Preserves, get_authorization-Preserves,
  list_authorizations-Preserves,
}
use auth_proxy.Proxy.Exchange.{var}
use auth_proxy.Proxy.Exchange.Preserving.{NoSlash, Spares, Spares-call}
use auth_proxy.Proxy.Responses.Preserving.{server_error-Spares, process_status_codes-Spares}
use auth_proxy.Proxy.LocalUsers.Helpers.{Reply}
use auth_proxy.Proxy.Authorizations.{
  convert_authz, answer, respond, added_shown, added, with_role, add_requested, unmarshaled,
  body_read, add_authorization, deleted, delete_authorization, found, get_authorization, listed,
  list_authorizations,
}

module _ (env : Env) {I : env.World → Type 0} (s : Sparing env I) where
  added_shown-Preserves :
      (a : Authorization) (r : Result String) → Preserves I (added_shown env a r)
  unfolding added_shown
  added_shown-Preserves a (ok text) = Preserves-pure _
  added_shown-Preserves a (err e) =
      Preserves-bind (Preserves-attempt (delete_authorization-Preserves env s a.uuid))
        (λ r. Preserves-pure (500, error_text (sentinel partial_failure_to_add_authz)))

  added-Preserves : (r : Result Authorization) → Preserves I (added env r)
  unfolding added
  added-Preserves (ok a) = added_shown-Preserves a (env.reply_json.marshal (convert_authz a))
  added-Preserves (err e) = Preserves-pure _

  with_role-Preserves :
      (req : AddAuthorizationRequest) (r : Result RoleType) → Preserves I (with_role env req r)
  unfolding with_role
  with_role-Preserves req (err e) = Preserves-pure _
  with_role-Preserves req (ok r) =
      Preserves-if (nat_eq r ops && is_empty req.tenant_name) (Preserves-pure _) (
        Preserves-bind
          (Preserves-attempt
            (add_authorization-Preserves env s req.tenant_name r req.principal_name req.local))
          added-Preserves)

  add_requested-Preserves : (req : AddAuthorizationRequest) → Preserves I (add_requested env req)
  unfolding add_requested
  add_requested-Preserves req =
      Preserves-if (is_empty req.principal_name) (Preserves-pure _)
        (with_role-Preserves req (parse_role req.role))

  answer-Spares : (reply : Reply) → Spares I (answer env reply)
  unfolding answer
  answer-Spares reply = process_status_codes-Spares env I reply.0 reply.1

  unmarshaled-Spares : (r : Result AddAuthorizationRequest) → Spares I (unmarshaled env r)
  unfolding unmarshaled respond
  unmarshaled-Spares (ok req) = Preserves-bind (Spares-call I (add_requested-Preserves req)) after
    where
      after : (r : Result Reply) → Spares I (respond env r)
      after (ok reply) = answer-Spares reply
      after (err e) = Preserves-throw e
  unmarshaled-Spares (err e) = server_error-Spares env I _

  body_read-Spares : (r : Result String) → Spares I (body_read env r)
  unfolding body_read
  body_read-Spares (ok body) = unmarshaled-Spares (env.add_authorization_json.unmarshal body)
  body_read-Spares (err e) = server_error-Spares env I _

  pub add_authorization-Spares :
      (req : Request) → NoSlash req → Spares I (add_authorization env req)
  unfolding add_authorization
  add_authorization-Spares req free = body_read-Spares req.body

  pub delete_authorization-Spares :
      (req : Request) → NoSlash req → Spares I (delete_authorization env req)
  unfolding delete_authorization
  delete_authorization-Spares req free =
      Preserves-bind
        (Spares-call I (delete_authorization-Preserves env s (var req.vars "authzUUID")))
        (λ r. answer-Spares (deleted env r))

  pub get_authorization-Spares :
      (req : Request) → NoSlash req → Spares I (get_authorization env req)
  unfolding get_authorization
  get_authorization-Spares req free =
      Preserves-bind (Spares-call I (get_authorization-Preserves env s (var req.vars "authzUUID")))
        (λ r. answer-Spares (found env r))

  pub list_authorizations-Spares :
      (req : Request) → NoSlash req → Spares I (list_authorizations env req)
  unfolding list_authorizations
  list_authorizations-Spares req free =
      Preserves-bind (Spares-call I (list_authorizations-Preserves env s))
        (λ r. answer-Spares (listed env r))
