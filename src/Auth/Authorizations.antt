-- ===== src/Auth/Authorizations.antt =====
-- auth/auth.go: adding, deleting and reading authorizations.
pub mod Deleting
pub mod Raising
pub mod Preserving
use auth_proxy.Prelude.{
  Bool, true, ◌&&◌, String, append, List, [], ◌∷◌, ltb, nat_eq, ◌==◌, if◌then◌else◌,
}
use auth_proxy.Errors.{Error, sentinel, illegal_operation, internal, Result, ok, err}
use auth_proxy.Exec.{Exec, pure, throw, lift, attempt, always, ◌>>=◌, ◌>>◌}
use auth_proxy.Types.{
  Authorization, RoleType, admin, role_claim_key, role, role_string, belongs_to_built_in_admin,
}
use auth_proxy.Driver.{get_state_driver}
use auth_proxy.Env.{Env}
use auth_proxy.Db.Authorizations.{
  insert_authorization, list_by_claim_and_principal, get_authorization as read_authorization,
  delete_authorization as remove_authorization, list_authorizations as list_all,
}
use auth_proxy.Auth.Claims.{tenant_object, generate_claim_key}

module _ (env : Env) where
  open env use {World, state_driver, new_uuid}

  -- A new authorization with two fresh identifiers, written to the store.
  unfoldable pub insert_new : String → Bool → String → RoleType → Exec World Authorization
  unfolding role_string get_state_driver
  insert_new principal_name is_local claim_key r = do
    sd ← get_state_driver state_driver
    id ← always new_uuid
    uuid ← always new_uuid
    let a : Authorization = record {
      id = id;
      uuid = uuid;
      principal_name = principal_name;
      local = is_local;
      claim_key = claim_key;
      claim_value = role_string r;
    }
    insert_authorization env sd a
    pure a

  -- `addTenantAuthorization`
  unfoldable pub add_tenant_authorization :
      String → RoleType → String → Bool → Exec World Authorization
  add_tenant_authorization tenant_name r principal_name is_local = do
    claim_str ← lift (generate_claim_key (tenant_object tenant_name))
    insert_new principal_name is_local claim_str r

  -- `addRoleAuthorization`
  unfoldable pub add_role_authorization : String → Bool → RoleType → Exec World Authorization
  add_role_authorization principal_name is_local r =
      insert_new principal_name is_local role_claim_key r

  raised : RoleType → Authorization → RoleType → Exec World Authorization
  unfolding role_string get_state_driver
  raised r a granted =
      if ltb r granted
      then (do
        let b = record a { claim_value = role_string r }
        sd ← get_state_driver state_driver
        insert_authorization env sd b
        pure b)
      else pure a

  -- The cases by the number of role authorizations. The driver that an authorization carries is the
  -- one that it was read through.
  unfoldable pub update_role :
      RoleType → String → Bool → List Authorization → Exec World Authorization
  unfolding raised
  update_role r principal_name is_local [] = add_role_authorization principal_name is_local r
  update_role r principal_name is_local (a ∷ []) = do
    granted ← lift (role a.claim_value)
    raised r a granted
  update_role r principal_name is_local (_ ∷ _ ∷ _) = throw (sentinel internal)

  -- `addUpdateRoleAuthorization`
  unfoldable pub add_update_role_authorization : RoleType → String → Bool → Exec World Authorization
  add_update_role_authorization r principal_name is_local = do
    authz ← list_by_claim_and_principal env role_claim_key principal_name
    update_role r principal_name is_local authz

  -- `AddAuthorization`
  unfoldable pub add_authorization : String → RoleType → String → Bool → Exec World Authorization
  unfolding role_string
  add_authorization tenant_name r principal_name is_local =
      if is_local && role_string admin == principal_name
      then throw (sentinel illegal_operation)
      else if nat_eq r admin
      then add_update_role_authorization r principal_name is_local
      else do
        authz ← add_tenant_authorization tenant_name r principal_name is_local
        add_update_role_authorization r principal_name is_local
        pure authz

  -- `DeleteAuthorization`
  unfoldable pub delete_authorization : String → Exec World (Unit {0})
  unfolding belongs_to_built_in_admin
  delete_authorization auth_uuid = do
    a ← read_authorization env auth_uuid
    if belongs_to_built_in_admin a
        then throw (sentinel illegal_operation)
        else remove_authorization env auth_uuid

  -- `GetAuthorization`
  unfoldable pub get_authorization : String → Exec World Authorization
  get_authorization authz_uuid = read_authorization env authz_uuid

  -- `ListAuthorizations`
  unfoldable pub list_authorizations : Exec World (List Authorization)
  list_authorizations = list_all env
