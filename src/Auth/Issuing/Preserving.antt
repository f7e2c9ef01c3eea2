-- ===== src/Auth/Issuing/Preserving.antt =====
-- Making and parsing tokens, and the entry of the built-in administrator.
use auth_proxy.Prelude.{Bool, String, List, [], ◌∷◌}
use auth_proxy.Errors.{Result, ok, err, is_panic}
use auth_proxy.Exec.Preserves.{
  Preserves, Preserves-pure, Preserves-throw, Preserves-lift, Preserves-attempt, Preserves-if,
  Preserves-bind,
}
use auth_proxy.Types.{role_claim_key}
use auth_proxy.Env.{Env, Claims}
use auth_proxy.Env.Sparing.{Sparing}
use auth_proxy.Db.Authorizations.Preserving.{list_by_claim_and_principal-Preserves}
use auth_proxy.Auth.Tokens.{Token, add_principals_claim}
use auth_proxy.Auth.SigningKey.Preserving.{get_token_signing_key-Preserves}
use auth_proxy.Auth.Issuing.{
  add_role_claim, new_token, or_unchanged, add_role_claims, new_token_with_claims, stringify,
  parse_key, parsed, parse_token,
}

module _ (env : Env) {I : env.World → Type 0} (s : Sparing env I) where
  new_token-Preserves : Preserves I (new_token env)
  unfolding new_token
  new_token-Preserves = record { at = λ w h. s.packages.now w h }

  add_role_claim-Preserves : (t : Token) (p : String) → Preserves I (add_role_claim env t p)
  unfolding add_role_claim
  add_role_claim-Preserves t p =
      Preserves-bind (list_by_claim_and_principal-Preserves env s role_claim_key p)
        (λ authz. Preserves-lift _)

  or_unchanged-Preserves : (t : Token) (r : Result Token) → Preserves I (or_unchanged env t r)
  unfolding or_unchanged
  or_unchanged-Preserves t (ok t') = Preserves-pure t'
  or_unchanged-Preserves t (err e) =
      Preserves-if (is_panic e) (Preserves-throw e) (Preserves-pure t)

  add_role_claims-Preserves :
      (t : Token) (ps : List String) → Preserves I (add_role_claims env t ps)
  unfolding add_role_claims
  add_role_claims-Preserves t [] = Preserves-pure t
  add_role_claims-Preserves t (p ∷ ps) =
      Preserves-bind (Preserves-attempt (add_role_claim-Preserves t p))
        (λ r. Preserves-bind (or_unchanged-Preserves t r) (λ t'. add_role_claims-Preserves t' ps))

  pub new_token_with_claims-Preserves :
      (ps : List String) → Preserves I (new_token_with_claims env ps)
  unfolding new_token_with_claims
  new_token_with_claims-Preserves ps =
      Preserves-bind new_token-Preserves
        (λ t. add_role_claims-Preserves (add_principals_claim t ps) ps)

  pub stringify-Preserves : (t : Token) → Preserves I (stringify env t)
  unfolding stringify
  stringify-Preserves t =
      Preserves-bind (get_token_signing_key-Preserves env s) (λ key. Preserves-lift _)

  parse_key-Preserves : (b : Bool) → Preserves I (parse_key env b)
  unfolding parse_key
  parse_key-Preserves b = Preserves-if b (get_token_signing_key-Preserves env s) (Preserves-throw _)

  pub parse_token-Preserves : (t : String) → Preserves I (parse_token env t)
  unfolding parse_token parsed
  parse_token-Preserves t =
      Preserves-bind
        (Preserves-attempt (s.packages.jwt_parse t (parse_key env) parse_key-Preserves)) after
    where
      after : (r : Result (Claims × Bool)) → Preserves I (parsed env r)
      after (ok (claims, valid)) = Preserves-if valid (Preserves-pure _) (Preserves-throw _)
      after (err e) = Preserves-throw _
