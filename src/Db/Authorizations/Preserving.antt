-- ===== src/Db/Authorizations/Preserving.antt =====
-- The functions of db/authz.go, and the entry of the built-in administrator.
use auth_proxy.Prelude.{Bool, true, ◌≡◌, ◌&&◌, ◌==◌, String, List, [], ◌∷◌, some}
use auth_proxy.Errors.{Result, ok, err, is_key_not_found}
use auth_proxy.Exec.{attempt, ◌>>=◌}
use auth_proxy.Exec.Preserves.{
  Preserves, Preserves-pure, Preserves-throw, Preserves-lift, Preserves-attempt, Preserves-if,
  Preserves-bind, Preserves-then,
}
use auth_proxy.Types.{Authorization, authz_dir, authz_key}
use auth_proxy.Driver.{StateDriver, read_state, write_state, read_all_state}
use auth_proxy.Env.{Env}
use auth_proxy.Env.Sparing.{admin_key, Sparing, with_driver}
use auth_proxy.Db.Keys.Apart.{authz_key-apart}
use auth_proxy.Db.Authorizations.{
  listed, write_authorization, clear_authorization, insert_authorization, get_authorization,
  delete_authorization, read_authorizations, list_authorizations, list_by_claim_and_principal,
  clear_matching, cleared_or_absent, delete_by_principal,
}

module _ (env : Env) {I : env.World → Type 0} (s : Sparing env I) where
  open env use {World, state_driver}

  read_authorizations-Preserves :
      (d : StateDriver World) → state_driver ≡ some d → Preserves I (read_authorizations env d)
  unfolding read_authorizations read_all_state
  read_authorizations-Preserves d at =
      Preserves-bind ((s.driver d at).read_all authz_dir) (λ vs. Preserves-lift _)

  -- A listing, whatever it selects.
  listing-Preserves :
      (wanted : Authorization → Bool) (d : StateDriver World)
      → state_driver ≡ some d
      → Preserves I (attempt (read_authorizations env d) >>= listed wanted)
  listing-Preserves wanted d at =
      Preserves-bind (Preserves-attempt (read_authorizations-Preserves d at)) after
    where
      after : (r : Result (List Authorization)) → Preserves I (listed wanted r)
      after (ok auths) = Preserves-pure _
      after (err e) = Preserves-if (is_key_not_found e) (Preserves-pure _) (Preserves-throw _)

  pub list_authorizations-Preserves : Preserves I (list_authorizations env)
  unfolding list_authorizations
  list_authorizations-Preserves = with_driver state_driver (listing-Preserves (λ a. true))

  pub list_by_claim_and_principal-Preserves :
      (claim principal : String) → Preserves I (list_by_claim_and_principal env claim principal)
  unfolding list_by_claim_and_principal
  list_by_claim_and_principal-Preserves claim principal =
      with_driver state_driver
        (listing-Preserves (λ a. a.claim_key == claim && a.principal_name == principal))

  pub insert_authorization-Preserves :
      (d : StateDriver World) (a : Authorization)
      → state_driver ≡ some d
      → Preserves I (insert_authorization env d a)
  unfolding insert_authorization write_authorization write_state
  insert_authorization-Preserves d a at =
      Preserves-bind (Preserves-lift _) (λ v. (s.driver d at).write (authz_key a.uuid) v)

  pub get_authorization-Preserves : (uuid : String) → Preserves I (get_authorization env uuid)
  unfolding get_authorization read_state
  get_authorization-Preserves uuid =
      with_driver state_driver
        (λ d at. Preserves-bind ((s.driver d at).read (authz_key uuid)) (λ v. Preserves-lift _))

  clear_authorization-Preserves :
      (d : StateDriver World) (uuid : String)
      → state_driver ≡ some d
      → Preserves I (clear_authorization env d uuid)
  unfolding clear_authorization admin_key
  clear_authorization-Preserves d uuid at =
      (s.driver d at).clear (authz_key uuid) (authz_key-apart uuid)

  pub delete_authorization-Preserves : (uuid : String) → Preserves I (delete_authorization env uuid)
  unfolding delete_authorization
  delete_authorization-Preserves uuid =
      with_driver state_driver (λ d at. clear_authorization-Preserves d uuid at)

  clear_matching-Preserves :
      (d : StateDriver World) (wanted : Authorization → Bool) (auths : List Authorization)
      → state_driver ≡ some d
      → Preserves I (clear_matching env d wanted auths)
  unfolding clear_matching
  clear_matching-Preserves d wanted [] at = Preserves-pure tt
  clear_matching-Preserves d wanted (a ∷ auths) at =
      Preserves-if (wanted a)
        (Preserves-then (clear_authorization-Preserves d a.uuid at)
          (clear_matching-Preserves d wanted auths at))
        (clear_matching-Preserves d wanted auths at)

  pub delete_by_principal-Preserves : (name : String) → Preserves I (delete_by_principal env name)
  unfolding delete_by_principal
  delete_by_principal-Preserves name =
      with_driver state_driver (λ d at.
        Preserves-bind (Preserves-attempt (read_authorizations-Preserves d at)) (after d at))
    where
      after :
          (d : StateDriver World)
          → state_driver ≡ some d
          → (r : Result (List Authorization))
          → Preserves I (cleared_or_absent env d (λ a. a.principal_name == name) r)
      after d at (ok auths) = clear_matching-Preserves d _ auths at
      after d at (err e) = Preserves-if (is_key_not_found e) (Preserves-pure tt) (Preserves-throw _)
