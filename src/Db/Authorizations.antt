-- ===== src/Db/Authorizations.antt =====
-- db/authz.go, and the methods of `Authorization` in common/types/authz.go that it calls.
pub mod Clearing
pub mod Listing
pub mod Preserving
use auth_proxy.Prelude.{Bool, false, true, ◌&&◌, String, List, [], ◌∷◌, select, ◌==◌, if◌then◌else◌}
use auth_proxy.Errors.{Error, sentinel, is_key_not_found, reading_from_store, Result, ok, err}
use auth_proxy.Exec.{Exec, pure, throw, lift, attempt, ◌>>=◌, ◌>>◌}
use auth_proxy.Types.{Authorization, authz_dir, authz_key}
use auth_proxy.Driver.{StateDriver, write_state, read_state, read_all_state, get_state_driver}
use auth_proxy.Env.{Env}

-- The end of the listing functions: the loop that appends what is wanted, or the read's error.
abbrev pub listed :
    {W : Type 0}
    → (Authorization → Bool)
    → Result (List Authorization)
    → Exec W (List Authorization)
listed wanted (ok auths) = pure (select wanted auths)
listed wanted (err e) = if is_key_not_found e then pure [] else throw (sentinel reading_from_store)

module _ (env : Env) where
  open env use {World, state_driver, authorization_json}

  -- `Authorization.Write`; the driver is the one that the authorization carries.
  unfoldable pub write_authorization : StateDriver World → Authorization → Exec World (Unit {0})
  unfolding authz_key
  write_authorization sd a = write_state sd authorization_json (authz_key a.uuid) a

  -- `Authorization.Clear`
  unfoldable pub clear_authorization : StateDriver World → String → Exec World (Unit {0})
  unfolding authz_key
  clear_authorization sd uuid = sd.clear (authz_key uuid)

  -- `InsertAuthorization`
  unfoldable pub insert_authorization : StateDriver World → Authorization → Exec World (Unit {0})
  insert_authorization sd a = write_authorization sd a

  -- `GetAuthorization`
  unfoldable pub get_authorization : String → Exec World Authorization
  unfolding get_state_driver authz_key
  get_authorization uuid = do
    sd ← get_state_driver state_driver
    read_state sd authorization_json (authz_key uuid)

  -- `DeleteAuthorization`
  unfoldable pub delete_authorization : String → Exec World (Unit {0})
  unfolding get_state_driver
  delete_authorization uuid = do sd ← get_state_driver state_driver; clear_authorization sd uuid

  -- `ReadAllState(types.AuthZDir, …)`
  unfoldable pub read_authorizations : StateDriver World → Exec World (List Authorization)
  read_authorizations sd = read_all_state sd authorization_json authz_dir

  -- `ListAuthorizations`
  unfoldable pub list_authorizations : Exec World (List Authorization)
  unfolding get_state_driver
  list_authorizations = do
    sd ← get_state_driver state_driver
    r ← attempt (read_authorizations sd)
    listed (λ a. true) r

  -- `ListAuthorizationsByPrincipal`
  unfoldable pub list_by_principal : String → Exec World (List Authorization)
  unfolding get_state_driver
  list_by_principal p_name = do
    sd ← get_state_driver state_driver
    r ← attempt (read_authorizations sd)
    listed (λ a. a.principal_name == p_name) r

  -- `ListAuthorizationsByClaim`
  unfoldable pub list_by_claim : String → Exec World (List Authorization)
  unfolding get_state_driver
  list_by_claim claim = do
    sd ← get_state_driver state_driver
    r ← attempt (read_authorizations sd)
    listed (λ a. a.claim_key == claim) r

  -- `ListAuthorizationsByClaimAndPrincipal`
  unfoldable pub list_by_claim_and_principal : String → String → Exec World (List Authorization)
  unfolding get_state_driver
  list_by_claim_and_principal claim principal = do
    sd ← get_state_driver state_driver
    r ← attempt (read_authorizations sd)
    listed (λ a. a.claim_key == claim && a.principal_name == principal) r

  -- The loop of the two deleting functions: it ends at the first error.
  unfoldable pub clear_matching :
      StateDriver World → (Authorization → Bool) → List Authorization → Exec World (Unit {0})
  clear_matching sd wanted [] = pure tt
  clear_matching sd wanted (a ∷ auths) =
      let rest = clear_matching sd wanted auths in
      if wanted a then (do clear_authorization sd a.uuid; rest) else rest

  abbrev cleared :
      StateDriver World
      → (Authorization → Bool)
      → Result (List Authorization)
      → Exec World (Unit {0})
  cleared sd wanted (ok auths) = clear_matching sd wanted auths
  cleared sd wanted (err e) = throw (sentinel reading_from_store)

  abbrev cleared_or_absent :
      StateDriver World
      → (Authorization → Bool)
      → Result (List Authorization)
      → Exec World (Unit {0})
  cleared_or_absent sd wanted (ok auths) = clear_matching sd wanted auths
  cleared_or_absent sd wanted (err e) =
      if is_key_not_found e then pure tt else throw (sentinel reading_from_store)

  -- `DeleteAuthorizationsByPrincipal`
  unfoldable pub delete_by_principal : String → Exec World (Unit {0})
  unfolding get_state_driver
  delete_by_principal p_name = do
    sd ← get_state_driver state_driver
    r ← attempt (read_authorizations sd)
    cleared_or_absent sd (λ a. a.principal_name == p_name) r

  -- `DeleteAuthorizationsByClaim`, which takes a missing directory for a failed read.
  unfoldable pub delete_by_claim : String → Exec World (Unit {0})
  unfolding get_state_driver
  delete_by_claim claim = do
    sd ← get_state_driver state_driver
    r ← attempt (read_authorizations sd)
    cleared sd (λ a. a.claim_key == claim) r
