-- ===== src/Db/Authorizations/Clearing.antt =====
-- Deleting authorizations over a store that keeps its laws and may fail at any call.
use auth_proxy.Prelude.{
  Bool, true, false, ◌≡◌, refl, String, List, [], ◌∷◌, Option, none, some, ap, sym, subst, ◌∙◌, All,
  ◌==◌, Bool-cases, inl, inr, eq_iff,
}
use auth_proxy.Errors.{ok, Result-cases}
use auth_proxy.Types.{Authorization, authz_dir, authz_key}
use auth_proxy.Driver.{StateDriver, get_state_driver-some, read_all_state}
use auth_proxy.Driver.Laws.{IsStore}
use auth_proxy.Env.{Env}
use auth_proxy.Db.Authorizations.{
  clear_authorization, clear_matching, read_authorizations, delete_by_principal,
}

-- Every wanted authorization is gone.
abbrev pub Gone :
    {W : Type 0}
    → (W → String → Option String)
    → (Authorization → Bool)
    → List Authorization
    → W
    → Type 0
Gone view wanted auths w = All (λ a. wanted a ≡ true → view w (authz_key a.uuid) ≡ none) auths

-- The key belongs to no wanted authorization.
abbrev pub Spared : (Authorization → Bool) → List Authorization → String → Type 0
Spared wanted auths j = All (λ a. wanted a ≡ true → (authz_key a.uuid == j) ≡ false) auths

module _ (env : Env) (drv : StateDriver env.World) (view : env.World → String → Option String)
    (store : IsStore drv view) (wanted : Authorization → Bool) where
  -- A cleared key is gone whichever it is.
  clear-none :
      (k j : String) (w : env.World) {x : Unit {0}}
      → (drv.clear k w).0 ≡ ok x
      → view w j ≡ none
      → view (drv.clear k w).1 j ≡ none
  clear-none k j w done h = elim (Bool-cases (k == j)) [
    | inl same ↦ rw (← (eq_iff k j).0 same) (store.clear_ok k w done)
    | inr other ↦ store.clear_keeps k w j other ∙ h
  ]

  -- Clearing one more key brings nothing back.
  pub Gone-clear :
      (k : String) (auths : List Authorization) (w : env.World)
      → (drv.clear k w).0 ≡ ok tt
      → Gone view wanted auths w
      → Gone view wanted auths (drv.clear k w).1
  Gone-clear k [] w done h = tt
  Gone-clear k (a ∷ auths) w done (here, later) =
      (λ m. clear-none k (authz_key a.uuid) w done (here m), Gone-clear k auths w done later)

  clear_matching-Spared :
      (auths : List Authorization) (w : env.World) (j : String)
      → Spared wanted auths j
      → view (clear_matching env drv wanted auths w).1 j ≡ view w j
  unfolding clear_matching clear_authorization
  clear_matching-Spared [] w j h = refl
  clear_matching-Spared (a ∷ auths) w j (here, later) = elim (Bool-cases (wanted a)) [
    | inr no_match ↦ rw no_match (clear_matching-Spared auths w j later)
    | inl matches ↦ elim (Result-cases (drv.clear (authz_key a.uuid) w).0) [
      | inr (e, bad) ↦ rw (matches, bad) (store.clear_keeps _ w j (here matches))
      | inl (x, good) ↦
          rw (matches, good)
            (clear_matching-Spared auths _ j later ∙ store.clear_keeps _ w j (here matches))
    ]
  ]

  -- What is gone stays gone.
  clear_matching-none :
      (auths : List Authorization) (w : env.World) (j : String)
      → (clear_matching env drv wanted auths w).0 ≡ ok tt
      → view w j ≡ none
      → view (clear_matching env drv wanted auths w).1 j ≡ none
  unfolding clear_matching clear_authorization
  clear_matching-none [] w j done h = h
  clear_matching-none (a ∷ auths) w j done h = elim (Bool-cases (wanted a)) [
    | inr no_match ↦ rw no_match (clear_matching-none auths w j (rw no_match at done) h)
    | inl matches ↦ elim (Result-cases (drv.clear (authz_key a.uuid) w).0) [
      | inr (e, bad) ↦ cc (rw (matches, bad) at done)
      | inl (x, good) ↦
          rw (matches, good)
            (clear_matching-none auths _ j (rw (matches, good) at done)
              (clear-none (authz_key a.uuid) j w good h))
    ]
  ]

  clear_matching-Gone :
      (auths : List Authorization) (w : env.World)
      → (clear_matching env drv wanted auths w).0 ≡ ok tt
      → Gone view wanted auths (clear_matching env drv wanted auths w).1
  unfolding clear_matching clear_authorization
  clear_matching-Gone [] w done = tt
  clear_matching-Gone (a ∷ auths) w done = elim (Bool-cases (wanted a)) [
    | inr no_match ↦
        let step : clear_matching env drv wanted (a ∷ auths) w
            ≡ clear_matching env drv wanted auths w =
          rw no_match refl in
        subst (λ r. Gone view wanted (a ∷ auths) r.1) (sym step)
          (λ matches. cc (matches, no_match), clear_matching-Gone auths w (rw no_match at done))
    | inl matches ↦ elim (Result-cases (drv.clear (authz_key a.uuid) w).0) [
      | inr (e, bad) ↦ cc (rw (matches, bad) at done)
      | inl (x, good) ↦
          let w₁ : env.World = (drv.clear (authz_key a.uuid) w).1 in
          let step : clear_matching env drv wanted (a ∷ auths) w
              ≡ clear_matching env drv wanted auths w₁ =
            rw (matches, good) refl in
          subst (λ r. Gone view wanted (a ∷ auths) r.1) (sym step)
            (
              λ _.
                  clear_matching-none auths _ (authz_key a.uuid) (rw (matches, good) at done)
                    (store.clear_ok (authz_key a.uuid) w good),
              clear_matching-Gone auths _ (rw (matches, good) at done),
            )
    ]
  ]

read_authorizations-keeps :
    (env : Env) (drv : StateDriver env.World) (view : env.World → String → Option String)
    (store : IsStore drv view) (w : env.World) (j : String)
    → view (read_authorizations env drv w).1 j ≡ view w j
unfolding read_authorizations read_all_state
read_authorizations-keeps env drv view store w j =
    elim (Result-cases (drv.read_all authz_dir w).0) [
      | inl (values, good) ↦ rw good (store.read_all_keeps authz_dir w j)
      | inr (e, bad) ↦ rw bad (store.read_all_keeps authz_dir w j)
    ]

-- Over a store that keeps its laws, if `DeleteAuthorizationsByPrincipal` succeeds, every
-- authorization of the principal that it has listed is gone from the store.
pub delete_by_principal-Gone :
    (env : Env) (drv : StateDriver env.World) (view : env.World → String → Option String)
    → env.state_driver ≡ some drv
    → (store : IsStore drv view) (principal : String) (auths : List Authorization)
      (w w₀ w' : env.World)
    → read_authorizations env drv w ≡ (ok auths, w₀)
    → delete_by_principal env principal w ≡ (ok tt, w')
    → Gone view (λ a. a.principal_name == principal) auths w'
unfolding delete_by_principal
delete_by_principal-Gone env drv view installed store principal auths w w₀ w' listed deleted =
    let done : clear_matching env drv (λ a. a.principal_name == principal) auths w₀ ≡ (ok tt, w') =
      rw (get_state_driver-some env.state_driver drv w installed, listed) at deleted in
    subst (Gone view (λ a. a.principal_name == principal) auths) (ap (λ x. x.1) done) (
      clear_matching-Gone env drv view store (λ a. a.principal_name == principal) auths w₀
        (ap (λ x. x.0) done))

-- Over a store that keeps its laws, `DeleteAuthorizationsByPrincipal` leaves every key that belongs
-- to no listed authorization of the principal as it was, whether it succeeds or not.
pub delete_by_principal-Spared :
    (env : Env) (drv : StateDriver env.World) (view : env.World → String → Option String)
    → env.state_driver ≡ some drv
    → (store : IsStore drv view) (principal : String) (auths : List Authorization)
      (w w₀ : env.World) (j : String)
    → read_authorizations env drv w ≡ (ok auths, w₀)
    → Spared (λ a. a.principal_name == principal) auths j
    → view (delete_by_principal env principal w).1 j ≡ view w j
unfolding delete_by_principal
delete_by_principal-Spared env drv view installed store principal auths w w₀ j listed spared =
    rw (get_state_driver-some env.state_driver drv w installed, listed)
      (clear_matching-Spared env drv view store (λ a. a.principal_name == principal) auths w₀ j
          spared
        ∙ subst (λ x. view x j ≡ view w j) (ap (λ x. x.1) listed)
            (read_authorizations-keeps env drv view store w j))
