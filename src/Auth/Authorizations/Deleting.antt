-- ===== src/Auth/Authorizations/Deleting.antt =====
-- `DeleteAuthorization` over a store that keeps its laws and may fail at any call.
use auth_proxy.Prelude.{
  true, false, ◌≡◌, ◌≢◌, ◌∙◌, String, Option, none, some, ◌==◌, Bool-cases, inl, inr,
}
use auth_proxy.Errors.{ok, Result-cases}
use auth_proxy.Types.{Authorization, authz_key, belongs_to_built_in_admin}
use auth_proxy.Driver.{StateDriver, get_state_driver-some, read_state}
use auth_proxy.Driver.Laws.{IsStore}
use auth_proxy.Env.{Env}
use auth_proxy.Db.Authorizations.{
  clear_authorization, get_authorization as read_authorization,
  delete_authorization as remove_authorization,
}
use auth_proxy.Auth.Authorizations.{delete_authorization}

module _ (env : Env) (drv : StateDriver env.World) (view : env.World → String → Option String)
    (installed : env.state_driver ≡ some drv) (store : IsStore drv view) where
  -- Over a store that keeps its laws, deleting an authorization of the built-in administrator fails,
  -- whatever the store answers, and every entry stays.
  pub delete_authorization-keeps_built_in :
      (uuid v : String) (a : Authorization) (w : env.World)
      → view w (authz_key uuid) ≡ some v
      → env.authorization_json.unmarshal v ≡ ok a
      → belongs_to_built_in_admin a ≡ true
      → ((delete_authorization env uuid w).0 ≢ ok tt)
        × ((j : String) → view (delete_authorization env uuid w).1 j ≡ view w j)
  unfolding delete_authorization read_authorization read_state
  delete_authorization-keeps_built_in uuid v a w held parsed built_in =
      let got = get_state_driver-some env.state_driver drv w installed in
      elim (Result-cases (drv.read (authz_key uuid) w).0) [
        | inr (e, bad) ↦ rw (got, bad) (λ h. cc, λ j. store.read_keeps (authz_key uuid) w j)
        | inl (v', good) ↦
            let same : v' ≡ v = cc (store.read_ok (authz_key uuid) v' w good, held) in
            rw (got, good, same, parsed, built_in)
              (λ h. cc, λ j. store.read_keeps (authz_key uuid) w j)
      ]

  -- Over a store that keeps its laws, a successful `DeleteAuthorization` has removed the authorization
  -- and no other entry.
  pub delete_authorization-removes :
      (uuid : String) (w : env.World)
      → (delete_authorization env uuid w).0 ≡ ok tt
      → (view (delete_authorization env uuid w).1 (authz_key uuid) ≡ none)
        × ((j : String)
            → (authz_key uuid == j) ≡ false
            → view (delete_authorization env uuid w).1 j ≡ view w j)
  unfolding delete_authorization read_authorization read_state remove_authorization
      clear_authorization
  delete_authorization-removes uuid w h =
      let got = get_state_driver-some env.state_driver drv w installed in
      let key : String = authz_key uuid in
      let w₁ : env.World = (drv.read key w).1 in
      let again = get_state_driver-some env.state_driver drv w₁ installed in
      elim (Result-cases (drv.read key w).0) [
        | inr (e, bad) ↦ cc (rw (got, bad) at h)
        | inl (v, good) ↦ elim (Result-cases (env.authorization_json.unmarshal v)) [
          | inr (e, bad) ↦ cc (rw (got, good, bad) at h)
          | inl (a, parsed) ↦ elim (Bool-cases (belongs_to_built_in_admin a)) [
            | inl built_in ↦ cc (rw (got, good, parsed, built_in) at h)
            | inr other ↦
                rw (got, good, parsed, other, again)
                  (
                    store.clear_ok key w₁ (rw (got, good, parsed, other, again) at h),
                    λ j apart. store.clear_keeps key w₁ j apart ∙ store.read_keeps key w j,
                  )
          ]
        ]
      ]
