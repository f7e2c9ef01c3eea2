-- ===== src/Proxy/Authorizations/Answers.antt =====
-- The handlers of authorizations: the statuses of the replies.
use auth_proxy.Prelude.{ℕ, ◌≡◌, ◌&&◌, refl, true, false, String, List, map, nat_eq, arith}
use auth_proxy.Errors.{Result, ok, err, sentinel, error_text, partial_failure_to_add_authz}
use auth_proxy.Exec.Returns.{Returns, Returns-pure, Returns-if, Returns-attempt}
use auth_proxy.Text.{is_empty}
use auth_proxy.Types.{Authorization, RoleType, ops, role as parse_role}
use auth_proxy.Messages.{AddAuthorizationRequest}
use auth_proxy.Env.{Env, Request}
use auth_proxy.Auth.Authorizations.{
  add_authorization as insert, delete_authorization as remove, get_authorization as find,
  list_authorizations as list_all,
}
use auth_proxy.Proxy.Exchange.{var}
use auth_proxy.Proxy.Exchange.Answers.{Answers, Answers-bind, Answers-call, Answers-returned}
use auth_proxy.Proxy.Responses.Answers.{
  is_own, OwnReply, server_error-Answers, process_status_codes-Answers,
}
use auth_proxy.Proxy.LocalUsers.Helpers.{Reply}
use auth_proxy.Proxy.Authorizations.{
  convert_authz, answer, respond, added_shown, added, with_role, add_requested, unmarshaled,
  body_read, add_authorization, deleted, delete_authorization, shown, found, get_authorization,
  listed, list_authorizations,
}

module _ (env : Env) where
  open env use {World}

  added_shown-Own : (a : Authorization) (r : Result String) → Returns OwnReply (added_shown env a r)
  unfolding added_shown is_own
  added_shown-Own a (ok text) = Returns-pure _ refl
  added_shown-Own a (err e) =
      Returns-attempt (remove env a.uuid) _
        (λ r. Returns-pure (500, error_text (sentinel partial_failure_to_add_authz)) refl)

  added-Own : (r : Result Authorization) → Returns OwnReply (added env r)
  unfolding added is_own
  added-Own (ok a) = added_shown-Own a (env.reply_json.marshal (convert_authz a))
  added-Own (err e) = Returns-pure _ (ground arith)

  with_role-Own :
      (req : AddAuthorizationRequest) (r : Result RoleType) → Returns OwnReply (with_role env req r)
  unfolding with_role is_own
  with_role-Own req (err e) = Returns-pure _ refl
  with_role-Own req (ok r) =
      Returns-if (nat_eq r ops && is_empty req.tenant_name) _ _ (Returns-pure _ refl) (
        Returns-attempt (insert env req.tenant_name r req.principal_name req.local) (added env)
          added-Own)

  add_requested-Own : (req : AddAuthorizationRequest) → Returns OwnReply (add_requested env req)
  unfolding add_requested is_own
  add_requested-Own req =
      Returns-if (is_empty req.principal_name) _ _ (Returns-pure _ refl)
        (with_role-Own req (parse_role req.role))

  deleted-Own : (r : Result (Unit {0})) → OwnReply (deleted env r)
  unfolding deleted is_own
  deleted-Own (ok _) = refl
  deleted-Own (err e) = ground arith

  shown-Own : (r : Result String) → OwnReply (shown env r)
  unfolding shown is_own
  shown-Own (ok text) = refl
  shown-Own (err e) = refl

  found-Own : (r : Result Authorization) → OwnReply (found env r)
  unfolding found is_own
  found-Own (ok a) = shown-Own (env.reply_json.marshal (convert_authz a))
  found-Own (err e) = ground arith

  listed-Own : (r : Result (List Authorization)) → OwnReply (listed env r)
  unfolding listed is_own
  listed-Own (ok auths) = shown-Own (env.replies_json.marshal (map convert_authz auths))
  listed-Own (err e) = refl

  module _ {P : ℕ → Type 0} (own : (n : ℕ) → is_own n ≡ true → P n) where
    answer-Answers :
        (reply : Reply) → OwnReply reply → Answers P false (λ _. true) (answer env reply)
    unfolding answer
    answer-Answers reply h = process_status_codes-Answers env reply.0 reply.1 (own reply.0 h)

    unmarshaled-Answers :
        (r : Result AddAuthorizationRequest) → Answers P false (λ _. true) (unmarshaled env r)
    unfolding unmarshaled respond is_own
    unmarshaled-Answers (ok req) =
        Answers-returned (add_requested env req) (respond env) (add_requested-Own req)
          answer-Answers
    unmarshaled-Answers (err e) = server_error-Answers env _ (own 500 refl)

    body_read-Answers : (r : Result String) → Answers P false (λ _. true) (body_read env r)
    unfolding body_read is_own
    body_read-Answers (ok body) = unmarshaled-Answers (env.add_authorization_json.unmarshal body)
    body_read-Answers (err e) = server_error-Answers env _ (own 500 refl)

    pub add_authorization-Answers :
        (req : Request) → Answers P false (λ _. true) (add_authorization env req)
    unfolding add_authorization
    add_authorization-Answers req = body_read-Answers req.body

    pub delete_authorization-Answers :
        (req : Request) → Answers P false (λ _. true) (delete_authorization env req)
    unfolding delete_authorization
    delete_authorization-Answers req =
        Answers-bind (λ _. false) _ _ (Answers-call false (remove env (var req.vars "authzUUID")))
          (λ r. answer-Answers (deleted env r) (deleted-Own r))

    pub get_authorization-Answers :
        (req : Request) → Answers P false (λ _. true) (get_authorization env req)
    unfolding get_authorization
    get_authorization-Answers req =
        Answers-bind (λ _. false) _ _ (Answers-call false (find env (var req.vars "authzUUID")))
          (λ r. answer-Answers (found env r) (found-Own r))

    pub list_authorizations-Answers :
        (req : Request) → Answers P false (λ _. true) (list_authorizations env req)
    unfolding list_authorizations
    list_authorizations-Answers req =
        Answers-bind (λ _. false) _ _ (Answers-call false (list_all env))
          (λ r. answer-Answers (listed env r) (listed-Own r))
