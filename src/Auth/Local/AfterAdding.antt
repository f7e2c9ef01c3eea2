-- ===== src/Auth/Local/AfterAdding.antt =====
-- A user who was added can log in.
use auth_proxy.Prelude.{
  true, false, ◌≡◌, refl, ◌⊎◌, inl, inr, String, Option, some, ap, subst, [], ◌∷◌,
}
use auth_proxy.Errors.{Error, Result, ok, err, Result-cases}
use auth_proxy.Types.{LocalUser}
use auth_proxy.Driver.{StateDriver, get_state_driver-some}
use auth_proxy.Driver.Laws.{IsStore}
use auth_proxy.Env.{Env}
use auth_proxy.Crypto.{validate_password}
use auth_proxy.Db.Keys.{local_user_key}
use auth_proxy.Db.LocalUsers.{add_local_user, get_local_user}
use auth_proxy.Db.LocalUsers.Adding.{HashesWell, Added, add_local_user-Added}
use auth_proxy.Auth.Local.{authenticate_locally, user_found}

module _ (env : Env) (drv : StateDriver env.World) (installed : env.state_driver ≡ some drv)
    (view : env.World → String → Option String) (store : IsStore drv view) where
  hashed_pair : {A B : Type 0} {x : A × B} {a : A} → x.0 ≡ a → x ≡ (a, x.1)
  hashed_pair h = cc

  get_local_user-found :
      (name value v : String) (user : LocalUser) (w : env.World)
      → view w (local_user_key name) ≡ some value
      → env.local_user_json.unmarshal value ≡ ok user
      → (drv.read (local_user_key name) w).0 ≡ ok v
      → (get_local_user env name w).0 ≡ ok user
  unfolding get_local_user
  get_local_user-found name value v user w held parsed done =
      rw (get_state_driver-some env.state_driver drv w installed, done) (rw same (rw parsed refl))
    where
      same : v ≡ value
      same = cc (store.read_ok (local_user_key name) v w done, held)

  accepted :
      (password : String) (user : LocalUser) (r : Result LocalUser) (w : env.World)
      → r ≡ ok user
      → user.disable ≡ false
      → env.compare_hash_and_password user.password_hash password ≡ true
      → (user_found env password r w).0 ≡ ok (user.username ∷ [])
  unfolding user_found validate_password
  accepted password user r w e enabled fits = rw e (rw (enabled, fits) refl)

  -- After a successful `AddLocalUser` of an enabled user the same name and password are accepted,
  -- unless reading the store fails; the store keeps its laws, hashes fit the passwords that they
  -- were made of, and the stored user is parsed as it was printed.
  pub authenticate-add_local_user :
      HashesWell env drv installed view store
      → (user u : LocalUser) (w w' : env.World)
      → ((h v : String)
          → env.local_user_json.marshal (record user { password = ""; password_hash = h }) ≡ ok v
          → env.local_user_json.unmarshal v ≡ ok (record user { password = ""; password_hash = h }))
      → user.disable ≡ false
      → add_local_user env user w ≡ (ok u, w')
      → ((authenticate_locally env user.username user.password w').0 ≡ ok (user.username ∷ []))
        ⊎ ((e : Error) × ((drv.read (local_user_key user.username) w').0 ≡ err e))
  unfolding authenticate_locally
  authenticate-add_local_user hashes user u w w' json enabled added =
      elim (Result-cases (drv.read (local_user_key user.username) w').0) [
        | inr failed ↦ inr failed
        | inl (v, done) ↦
            let first : env.World = (drv.read (local_user_key user.username) w).1 in
            let now : Added env drv installed view store user first w' =
              subst (λ x. Added env drv installed view store user first x) (ap (λ x. x.1) added)
                (add_local_user-Added env drv installed view store user u w
                  (ap (λ x. x.0) added)) in
            let kept : LocalUser = record user { password = ""; password_hash = now.hash } in
            inl (
              accepted user.password kept (get_local_user env user.username w').0
                (get_local_user env user.username w').1
                (get_local_user-found user.username now.stored.value v kept w' now.stored.found
                  (json now.hash now.stored.value now.stored.printed) done)
                enabled (hashes.fits user.password now.hash first _ (hashed_pair now.hashed)))
      ]
