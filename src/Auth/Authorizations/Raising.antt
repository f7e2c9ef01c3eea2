-- ===== src/Auth/Authorizations/Raising.antt =====
-- `addUpdateRoleAuthorization` leaves a principal with the role that was asked for, or a stronger one.
use auth_proxy.Prelude.{◌≤◌, ◌≡◌, String, Bool, List, [], ◌∷◌, ltb, arith, ap, refl, ◌∙◌}
use auth_proxy.Errors.{ok}
use auth_proxy.Exec.{Exec, pure, ◌>>◌}
use auth_proxy.Exec.Yields.{Yields, Yields-pure, Yields-throw, Yields-if, Yields-bind, Yields-lift}
use auth_proxy.Types.{Authorization, RoleType, role, role_string, role_claim_key}
use auth_proxy.Auth.Tokens.Roles.{IsNamed, role-role_string}
use auth_proxy.Driver.{StateDriver, get_state_driver}
use auth_proxy.Env.{Env}
use auth_proxy.Db.Authorizations.{insert_authorization, list_by_claim_and_principal}
use auth_proxy.Auth.Authorizations.{
  insert_new, add_role_authorization, raised, update_role, add_update_role_authorization,
}

-- The authorization's role is `r` or a stronger one.
abbrev pub GrantsAtLeast : Authorization → RoleType → Type 0
GrantsAtLeast a r = (g : RoleType) × (role a.claim_value ≡ ok g) × (g ≤ r)

module _ (env : Env) (r : RoleType) (is_named : IsNamed r) where
  abbrev Granting : Exec env.World Authorization → Type 0
  Granting m = Yields (λ a. GrantsAtLeast a r) m

  exactly : (b : Authorization) → b.claim_value ≡ role_string r → GrantsAtLeast b r
  exactly b e = (r, ap role e ∙ role-role_string r is_named, ground arith)

  -- An authorization of the role is written and returned.
  written :
      (sd : StateDriver env.World) (b : Authorization)
      → b.claim_value ≡ role_string r
      → Granting (insert_authorization env sd b >> pure b)
  written sd b e =
      Yields-bind (insert_authorization env sd b) (λ _. pure b) (λ _. Yields-pure b (exactly b e))

  insert_new-Granting : (p : String) (l : Bool) (key : String) → Granting (insert_new env p l key r)
  unfolding insert_new
  insert_new-Granting p l key = Yields-bind (get_state_driver env.state_driver) _ (λ sd. record {
    at = λ w a h.
        let (id, w₁) = env.new_uuid w in
        let (uuid, w₂) = env.new_uuid w₁ in
        let b : Authorization = record {
          id = id;
          uuid = uuid;
          principal_name = p;
          local = l;
          claim_key = key;
          claim_value = role_string r;
        } in
        (written sd b refl).at w₂ a h;
  })

  raised-Granting :
      (old : Authorization) (g : RoleType)
      → role old.claim_value ≡ ok g
      → Granting (raised env r old g)
  unfolding raised
  raised-Granting old g named =
      Yields-if (ltb r g) _ _
        (λ weaker.
          Yields-bind (get_state_driver env.state_driver) _
            (λ sd. written sd (record old { claim_value = role_string r }) refl))
        (λ strong. Yields-pure old (g, named, ground arith))

  update_role-Granting :
      (p : String) (l : Bool) (auths : List Authorization) → Granting (update_role env r p l auths)
  unfolding update_role add_role_authorization
  update_role-Granting p l [] = insert_new-Granting p l role_claim_key
  update_role-Granting p l (old ∷ []) =
      Yields-lift (role old.claim_value) _ (λ g named. raised-Granting old g named)
  update_role-Granting p l (_ ∷ _ ∷ _) = Yields-throw _

  -- If `addUpdateRoleAuthorization` succeeds for one of the two roles, the authorization that it
  -- returns grants that role or a stronger one, whatever the store does.
  pub add_update_role_authorization-grants :
      (p : String) (l : Bool) (a : Authorization) (w : env.World)
      → (add_update_role_authorization env r p l w).0 ≡ ok a
      → GrantsAtLeast a r
  unfolding add_update_role_authorization
  add_update_role_authorization-grants p l a w h =
      (Yields-bind (list_by_claim_and_principal env role_claim_key p) (update_role env r p l)
          (update_role-Granting p l)).at
        w a h
