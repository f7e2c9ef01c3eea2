-- ===== src/Db/LocalUsers/Removing.antt =====
-- `DeleteLocalUser` over a store that keeps its laws and may fail at any call.
use auth_proxy.Prelude.{
  Bool, true, ◌≡◌, refl, ◌||◌, String, List, Option, none, some, ap, ◌==◌, Bool-cases, inl, inr,
}
use auth_proxy.Errors.{sentinel, illegal_operation, Result, ok, err, Result-cases}
use auth_proxy.Types.{Authorization, admin, ops, role_string}
use auth_proxy.Driver.{StateDriver, get_state_driver-some}
use auth_proxy.Driver.Laws.{IsStore}
use auth_proxy.Env.{Env}
use auth_proxy.Db.Keys.{local_user_key}
use auth_proxy.Db.Authorizations.{read_authorizations, delete_by_principal}
use auth_proxy.Db.Authorizations.Clearing.{Gone, Gone-clear, delete_by_principal-Gone}
use auth_proxy.Db.LocalUsers.{delete_local_user}

abbrev pub built_in : String → Bool
built_in username = username == role_string admin || username == role_string ops

-- The built-in users cannot be deleted: the call changes nothing.
pub delete_local_user-built_in :
    (env : Env) (username : String) (w : env.World)
    → built_in username ≡ true
    → delete_local_user env username w ≡ (err (sentinel illegal_operation), w)
unfolding delete_local_user
delete_local_user-built_in env username w h = rw h refl

ok_pair : {W : Type 0} {p : Result (Unit {0}) × W} {x : Unit {0}} → p.0 ≡ ok x → p ≡ (ok tt, p.1)
ok_pair h = cc

module _ (env : Env) (drv : StateDriver env.World) (view : env.World → String → Option String)
    (installed : env.state_driver ≡ some drv) (store : IsStore drv view) where
  -- What the last two steps leave behind.
  removed :
      (key username : String) (auths : List Authorization) (w w₀ : env.World) {w' : env.World}
      {x y : Unit {0}}
      → read_authorizations env drv w ≡ (ok auths, w₀)
      → (delete_by_principal env username w).0 ≡ ok x
      → (drv.clear key (delete_by_principal env username w).1).0 ≡ ok y
      → (drv.clear key (delete_by_principal env username w).1).1 ≡ w'
      → (view w' key ≡ none) × Gone view (λ a. a.principal_name == username) auths w'
  removed key username auths w w₀ listed gone cleared e = rw (← e) (
    store.clear_ok key _ cleared,
    Gone-clear env drv view store (λ a. a.principal_name == username) key auths _ cleared
        (delete_by_principal-Gone env drv view installed store username auths w w₀ _ listed
          (ok_pair gone)),
  )

  -- Over a store that keeps its laws, a successful `DeleteLocalUser` has removed the user, and every
  -- authorization of that name that was listed.
  pub delete_local_user-removes :
      (username : String) (auths : List Authorization) (w w₀ w' : env.World)
      → read_authorizations env drv (drv.read (local_user_key username) w).1 ≡ (ok auths, w₀)
      → delete_local_user env username w ≡ (ok tt, w')
      → (view w' (local_user_key username) ≡ none)
        × Gone view (λ a. a.principal_name == username) auths w'
  unfolding delete_local_user
  delete_local_user-removes username auths w w₀ w' listed h =
      let key : String = local_user_key username in
      let w₁ : env.World = (drv.read key w).1 in
      let w₂ : env.World = (delete_by_principal env username w₁).1 in
      let got = get_state_driver-some env.state_driver drv w installed in
      elim (Bool-cases (built_in username)) [
        | inl refused ↦ cc (rw refused at h)
        | inr other ↦ elim (Result-cases (drv.read key w).0) [
          | inr (e, bad) ↦ cc (rw (other, got, bad) at h)
          | inl (v, found) ↦ elim (Result-cases (delete_by_principal env username w₁).0) [
            | inr (e, bad) ↦ cc (rw (other, got, found, bad) at h)
            | inl (x, gone) ↦ elim (Result-cases (drv.clear key w₂).0) [
              | inr (e, bad) ↦ cc (rw (other, got, found, gone, bad) at h)
              | inl (y, done) ↦
                  removed key username auths w₁ w₀ listed gone done
                    (ap (λ r. r.1) (rw (other, got, found, gone, done) at h))
            ]
          ]
        ]
      ]
