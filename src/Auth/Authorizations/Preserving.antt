-- ===== src/Auth/Authorizations/Preserving.antt =====
-- Adding and deleting authorizations, and the entry of the built-in administrator.
use auth_proxy.Prelude.{Bool, ◌≡◌, ◌&&◌, ◌==◌, String, List, [], ◌∷◌, some, ltb, nat_eq}
use auth_proxy.Exec.{pure, ◌>>◌}
use auth_proxy.Exec.Preserves.{
  Preserves, Preserves-pure, Preserves-throw, Preserves-lift, Preserves-always, Preserves-if,
  Preserves-bind, Preserves-then,
}
use auth_proxy.Types.{
  Authorization, RoleType, admin, role_claim_key, role, role_string, belongs_to_built_in_admin,
}
use auth_proxy.Driver.{StateDriver}
use auth_proxy.Env.{Env}
use auth_proxy.Env.Sparing.{Sparing, with_driver}
use auth_proxy.Db.Authorizations.{insert_authorization}
use auth_proxy.Db.Authorizations.Preserving.{
  list_authorizations-Preserves as all-Preserves, list_by_claim_and_principal-Preserves,
  insert_authorization-Preserves, get_authorization-Preserves as read-Preserves,
  delete_authorization-Preserves as remove-Preserves,
}
use auth_proxy.Auth.Claims.{tenant_object, generate_claim_key}
use auth_proxy.Auth.Authorizations.{
  insert_new, add_tenant_authorization, add_role_authorization, raised, update_role,
  add_update_role_authorization, add_authorization, delete_authorization, get_authorization,
  list_authorizations,
}

module _ (env : Env) {I : env.World → Type 0} (s : Sparing env I) where
  open env use {World, state_driver}

  written-Preserves :
      (d : StateDriver World) (a : Authorization)
      → state_driver ≡ some d
      → Preserves I (insert_authorization env d a >> pure a)
  written-Preserves d a at =
      Preserves-then (insert_authorization-Preserves env s d a at) (Preserves-pure a)

  insert_new-Preserves :
      (name : String) (is_local : Bool) (claim_key : String) (r : RoleType)
      → Preserves I (insert_new env name is_local claim_key r)
  unfolding insert_new
  insert_new-Preserves name is_local claim_key r = with_driver state_driver (λ d at.
      Preserves-bind (Preserves-always env.new_uuid s.packages.new_uuid) (λ id.
        Preserves-bind (Preserves-always env.new_uuid s.packages.new_uuid) (λ uuid.
          written-Preserves d
            (record {
              id = id;
              uuid = uuid;
              principal_name = name;
              local = is_local;
              claim_key = claim_key;
              claim_value = role_string r;
            })
            at)))

  add_tenant-Preserves :
      (tenant : String) (r : RoleType) (name : String) (is_local : Bool)
      → Preserves I (add_tenant_authorization env tenant r name is_local)
  unfolding add_tenant_authorization
  add_tenant-Preserves tenant r name is_local =
      Preserves-bind (Preserves-lift (generate_claim_key (tenant_object tenant)))
        (λ claim. insert_new-Preserves name is_local claim r)

  raised-Preserves :
      (r : RoleType) (a : Authorization) (granted : RoleType) → Preserves I (raised env r a granted)
  unfolding raised
  raised-Preserves r a granted =
      Preserves-if (ltb r granted)
        (with_driver state_driver
          (λ d at. written-Preserves d (record a { claim_value = role_string r }) at))
        (Preserves-pure a)

  update_role-Preserves :
      (r : RoleType) (name : String) (is_local : Bool) (auths : List Authorization)
      → Preserves I (update_role env r name is_local auths)
  unfolding update_role add_role_authorization
  update_role-Preserves r name is_local [] = insert_new-Preserves name is_local role_claim_key r
  update_role-Preserves r name is_local (a ∷ []) =
      Preserves-bind (Preserves-lift (role a.claim_value)) (raised-Preserves r a)
  update_role-Preserves r name is_local (_ ∷ _ ∷ _) = Preserves-throw _

  add_update_role-Preserves :
      (r : RoleType) (name : String) (is_local : Bool)
      → Preserves I (add_update_role_authorization env r name is_local)
  unfolding add_update_role_authorization
  add_update_role-Preserves r name is_local =
      Preserves-bind (list_by_claim_and_principal-Preserves env s role_claim_key name)
        (update_role-Preserves r name is_local)

  pub add_authorization-Preserves :
      (tenant : String) (r : RoleType) (name : String) (is_local : Bool)
      → Preserves I (add_authorization env tenant r name is_local)
  unfolding add_authorization
  add_authorization-Preserves tenant r name is_local =
      Preserves-if (is_local && role_string admin == name) (Preserves-throw _) (
        Preserves-if (nat_eq r admin) (add_update_role-Preserves r name is_local) (
          Preserves-bind (add_tenant-Preserves tenant r name is_local)
            (λ a. Preserves-then (add_update_role-Preserves r name is_local) (Preserves-pure a))))

  pub delete_authorization-Preserves : (uuid : String) → Preserves I (delete_authorization env uuid)
  unfolding delete_authorization
  delete_authorization-Preserves uuid = Preserves-bind (read-Preserves env s uuid) (λ a.
      Preserves-if (belongs_to_built_in_admin a) (Preserves-throw _) (remove-Preserves env s uuid))

  pub get_authorization-Preserves : (uuid : String) → Preserves I (get_authorization env uuid)
  unfolding get_authorization
  get_authorization-Preserves uuid = read-Preserves env s uuid

  pub list_authorizations-Preserves : Preserves I (list_authorizations env)
  unfolding list_authorizations
  list_authorizations-Preserves = all-Preserves env s
