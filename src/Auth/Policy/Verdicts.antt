-- ===== src/Auth/Policy/Verdicts.antt =====
-- The policies as functions of the authorizations in the store.
--
-- The hypothesis of this module is that listing the authorizations leaves the world as it is, so
-- that every round of a loop reads the same list, or the same error.
use auth_proxy.Prelude.{
  ℕ, Bool, false, ltb, ◌≡◌, refl, ◌&&◌, ◌||◌, String, append, List, [], ◌∷◌, some, any, select,
  ◌==◌, arith, if◌then◌else◌,
}
use auth_proxy.Errors.{
  sentinel, is_key_not_found, unauthorized, reading_from_store, Result, ok, err,
}
use auth_proxy.Text.{split}
use auth_proxy.Types.{Authorization, role_claim_key, role, role_string}
use auth_proxy.Driver.{StateDriver, get_state_driver-some}
use auth_proxy.Env.{Env}
use auth_proxy.Db.Authorizations.{listed, read_authorizations, list_by_claim_and_principal}
use auth_proxy.Auth.Claims.{
  ClaimObject, role_object, tenant_object, other_object, generate_claim_key, check_access_claim,
}
use auth_proxy.Auth.Tokens.{Token, principals_claim_key, get_claim, get_principals}
use auth_proxy.Auth.Policy.{
  is_granted, grants, has_admin_role, check_principals, check_role_policy, check_tenant_policy,
  check_claims, any_admin, is_superuser, claim_string,
}

-- The authorizations of a principal for a claim, as they are listed from the result of a read.
unfoldable pub matching :
    Result (List Authorization) → String → String → Result (List Authorization)
matching (ok auths) claim p = ok (select (λ a. a.claim_key == claim && a.principal_name == p) auths)
matching (err e) claim p = if is_key_not_found e then ok [] else err (sentinel reading_from_store)

-- What the value of an authorization allows: "admin" every role, "ops" every role but `Admin`, and any
-- other value, or what is not a role, nothing.
unfoldable pub allows : String → ClaimObject → Bool
allows value (role_object desired) = value == "admin" || value == "ops" && ltb 0 desired
allows value (tenant_object _) = false
allows value other_object = false

-- The value of the first authorization, if there is one, satisfies the condition.
unfoldable pub first_value : (String → Bool) → Result (List Authorization) → Bool
first_value f (ok []) = false
first_value f (ok (a ∷ _)) = f a.claim_value
first_value f (err e) = false

-- Whether some principal has the desired access.
unfoldable pub granted_to_any :
    Result (List Authorization) → String → ClaimObject → List String → Bool
unfolding matching first_value allows any
granted_to_any r claim desired principals =
    any (λ p. first_value (λ value. allows value desired) (matching r claim p)) principals

-- Some principal has the role `admin`.
unfoldable pub admin_among : Result (List Authorization) → List String → Bool
unfolding matching first_value any
admin_among r principals =
    any (λ p. first_value (λ value. value == "admin") (matching r "role" p)) principals

granted-eq-allows :
    (desired : ClaimObject) (a : Authorization) (auths : List Authorization)
    → grants desired (ok (a ∷ auths)) ≡ allows a.claim_value desired
unfolding grants allows is_granted check_access_claim role role_string
granted-eq-allows (role_object n) a auths = ground arith
granted-eq-allows (tenant_object t) a auths = ground arith
granted-eq-allows other_object a auths = ground arith

grants-eq-first_value :
    (desired : ClaimObject) (r : Result (List Authorization))
    → grants desired r ≡ first_value (λ value. allows value desired) r
unfolding grants first_value
grants-eq-first_value desired (err e) = refl
grants-eq-first_value desired (ok []) = refl
grants-eq-first_value desired (ok (a ∷ auths)) = granted-eq-allows desired a auths

has_admin_role-eq-first_value :
    (r : Result (List Authorization)) → has_admin_role r ≡ first_value (λ value. value == "admin") r
unfolding has_admin_role first_value role role_string
has_admin_role-eq-first_value (err e) = refl
has_admin_role-eq-first_value (ok []) = refl
has_admin_role-eq-first_value (ok (a ∷ auths)) = ground arith

matched :
    {W : Type 0} (r : Result (List Authorization)) (claim p : String) (w : W)
    → listed (λ a. a.claim_key == claim && a.principal_name == p) r w ≡ (matching r claim p, w)
unfolding matching
matched r claim p w = ground arith

abbrev pub verdict : Bool → Result (Unit {0})
verdict b = if b then ok tt else err (sentinel unauthorized)

module _ (env : Env) (drv : StateDriver env.World) (installed : env.state_driver ≡ some drv)
    (r : Result (List Authorization)) (w : env.World)
    (quiet : read_authorizations env drv w ≡ (r, w)) where
  list-eq-matching :
      (claim p : String) → list_by_claim_and_principal env claim p w ≡ (matching r claim p, w)
  unfolding list_by_claim_and_principal
  list-eq-matching claim p =
      rw (get_state_driver-some env.state_driver drv w installed, quiet) (matched r claim p w)

  -- The loop of the policies asks whether some principal is granted the access.
  check_principals-eq-verdict :
      (claim : String) (desired : ClaimObject) (principals : List String)
      → check_principals env claim desired principals w
        ≡ (verdict (granted_to_any r claim desired principals), w)
  unfolding check_principals granted_to_any any
  check_principals-eq-verdict claim desired [] = refl
  check_principals-eq-verdict claim desired (p ∷ principals) =
      rw (list-eq-matching claim p, grants-eq-first_value desired (matching r claim p))
        (ground (arith, check_principals-eq-verdict claim desired principals))

  any_admin-eq :
      (principals : List String) → any_admin env principals w ≡ (ok (admin_among r principals), w)
  unfolding any_admin admin_among any
  any_admin-eq [] = refl
  any_admin-eq (p ∷ principals) =
      rw
        (
          list-eq-matching role_claim_key p,
          has_admin_role-eq-first_value (matching r role_claim_key p),
        )
        (ground (arith, any_admin-eq principals))

  -- While listing the authorizations leaves the world as it is, a token is a superuser's exactly if
  -- the first authorization for the claim "role" of one of its principals has the value "admin"; the
  -- check changes nothing.
  pub is_superuser-eq-any :
      (t : Token)
      → is_superuser env t w
        ≡ (ok (admin_among r (split (get_claim t principals_claim_key) b';')), w)
  unfolding is_superuser
  is_superuser-eq-any t = any_admin-eq (split (get_claim t principals_claim_key) b';')

  -- The bearer of a token with principals has the desired access to a tenant exactly if the first
  -- authorization of one of the principals for that tenant grants it.
  pub check_tenant_policy-eq-verdict :
      (t : Token) (tenant : String) (desired : ClaimObject) (principals : List String)
      → get_principals t ≡ ok principals
      → check_tenant_policy env t tenant desired w
        ≡ (verdict (granted_to_any r (append "tenant:" tenant) desired principals), w)
  unfolding check_tenant_policy claim_string generate_claim_key
  check_tenant_policy-eq-verdict t tenant desired principals h =
      rw h (check_principals-eq-verdict (append "tenant:" tenant) desired principals)

  -- So for a role.
  pub check_role_policy-eq-verdict :
      (t : Token) (desired : ℕ) (principals : List String)
      → get_principals t ≡ ok principals
      → check_role_policy env t desired w
        ≡ (verdict (granted_to_any r "role" (role_object desired) principals), w)
  unfolding check_role_policy
  check_role_policy-eq-verdict t desired principals h =
      rw h (check_principals-eq-verdict role_claim_key (role_object desired) principals)

  -- While listing the authorizations leaves the world as it is, `CheckClaims` of a tenant and an
  -- access to it, for a token with principals, succeeds exactly if the first authorization of one of
  -- the principals for that tenant has a value that allows the access, "admin" any role and "ops" any
  -- but `Admin`; else it is unauthorized. It changes nothing.
  pub check_claims-eq-verdict :
      (t : Token) (tenant : String) (desired : ClaimObject) (principals : List String)
      → get_principals t ≡ ok principals
      → check_claims env t (tenant_object tenant ∷ desired ∷ []) w
        ≡ (verdict (granted_to_any r (append "tenant:" tenant) desired principals), w)
  unfolding check_claims
  check_claims-eq-verdict t tenant desired principals h =
      rw (check_tenant_policy-eq-verdict t tenant desired principals h) (ground arith)
