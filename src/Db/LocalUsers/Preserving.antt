-- ===== src/Db/LocalUsers/Preserving.antt =====
-- The functions of db/local.go, and the entry of the built-in administrator.
use auth_proxy.Prelude.{true, false, Bool-cases, ◌≡◌, ◌||◌, ◌==◌, inl, inr, String, List, [], some}
use auth_proxy.Errors.{Result, ok, err, is_key_not_found}
use auth_proxy.Exec.Preserves.{
  Preserves, Preserves-pure, Preserves-throw, Preserves-lift, Preserves-attempt, Preserves-if,
  Preserves-bind, Preserves-then,
}
use auth_proxy.Text.{is_empty}
use auth_proxy.Text.Splitting.{is_free}
use auth_proxy.Types.{LocalUser, role_string, admin, ops}
use auth_proxy.Driver.{StateDriver}
use auth_proxy.Env.{Env}
use auth_proxy.Env.Sparing.{admin_key, Sparing, with_driver}
use auth_proxy.Crypto.Preserving.{gen_password_hash-Preserves}
use auth_proxy.Db.Keys.{local_user_key}
use auth_proxy.Db.Keys.Apart.{local_user_key-apart}
use auth_proxy.Db.Authorizations.Preserving.{delete_by_principal-Preserves}
use auth_proxy.Db.LocalUsers.{
  users_read, get_local_users, user_parsed, user_read, get_local_user, user_marshaled, written,
  store_user, rehash, update_found, update_local_user, user_cleared, delete_local_user, add_missing,
  add_local_user,
}

not_admin :
    (name : String)
    → (name == role_string admin || name == role_string ops) ≡ false
    → (name == "admin") ≡ false
unfolding role_string
not_admin name h = elim (Bool-cases (name == "admin")) [
  | inl same ↦ cc (rw same at h)
  | inr other ↦ other
]

module _ (env : Env) {I : env.World → Type 0} (s : Sparing env I) where
  open env use {World, state_driver}

  pub get_local_users-Preserves : Preserves I (get_local_users env)
  unfolding get_local_users users_read
  get_local_users-Preserves =
      with_driver state_driver
        (λ d at. Preserves-bind (Preserves-attempt ((s.driver d at).read_all _)) after)
    where
      after : (r : Result (List String)) → Preserves I (users_read env r)
      after (ok raw) = Preserves-lift _
      after (err e) = Preserves-if (is_key_not_found e) (Preserves-pure []) (Preserves-throw _)

  user_read-Preserves : (r : Result String) → Preserves I (user_read env r)
  unfolding user_read
  user_read-Preserves (ok raw) = parsed (env.local_user_json.unmarshal raw)
    where
      parsed : (r : Result LocalUser) → Preserves I (user_parsed env r)
      parsed (ok user) = Preserves-pure user
      parsed (err e) = Preserves-throw _
  user_read-Preserves (err e) =
      Preserves-if (is_key_not_found e) (Preserves-throw e) (Preserves-throw _)

  pub get_local_user-Preserves : (name : String) → Preserves I (get_local_user env name)
  unfolding get_local_user
  get_local_user-Preserves name = with_driver state_driver (λ d at.
      Preserves-bind (Preserves-attempt ((s.driver d at).read (local_user_key name)))
        user_read-Preserves)

  written-Preserves : (r : Result (Unit {0})) → Preserves I (written env r)
  unfolding written
  written-Preserves (ok _) = Preserves-pure tt
  written-Preserves (err e) = Preserves-throw _

  marshaled-Preserves : (r : Result String) → Preserves I (user_marshaled env r)
  unfolding user_marshaled
  marshaled-Preserves (ok v) = Preserves-pure v
  marshaled-Preserves (err e) = Preserves-throw _

  store_user-Preserves :
      (d : StateDriver World) (key : String) (user : LocalUser)
      → state_driver ≡ some d
      → Preserves I (store_user env d key user)
  unfolding store_user
  store_user-Preserves d key user at = Preserves-bind (marshaled-Preserves _) (λ v.
      Preserves-bind (Preserves-attempt ((s.driver d at).write key v)) (λ r.
        Preserves-then (written-Preserves r)
          (Preserves-pure (record user { password = ""; password_hash = "" }))))

  rehash-Preserves : (user : LocalUser) → Preserves I (rehash env user)
  unfolding rehash
  rehash-Preserves user = Preserves-if (is_empty user.password) (Preserves-pure user) (
      Preserves-bind (gen_password_hash-Preserves env s user.password) (λ h. search Preserves-pure))

  pub update_local_user-Preserves :
      (name : String) (user : LocalUser) → Preserves I (update_local_user env name user)
  unfolding update_local_user update_found
  update_local_user-Preserves name user = with_driver state_driver (λ d at.
      Preserves-bind (Preserves-attempt ((s.driver d at).read (local_user_key name))) (after d at))
    where
      after :
          (d : StateDriver World)
          → state_driver ≡ some d
          → (r : Result String) → Preserves I (update_found env d (local_user_key name) user r)
      after d at (ok v) =
          Preserves-bind (rehash-Preserves user)
            (λ hashed. store_user-Preserves d (local_user_key name) hashed at)
      after d at (err e) = Preserves-if (is_key_not_found e) (Preserves-throw e) (Preserves-throw _)

  cleared-Preserves : (r : Result (Unit {0})) → Preserves I (user_cleared env r)
  unfolding user_cleared
  cleared-Preserves (ok _) = Preserves-pure tt
  cleared-Preserves (err e) = Preserves-throw _

  pub delete_local_user-Preserves :
      (name : String) → is_free b'/' name ≡ true → Preserves I (delete_local_user env name)
  unfolding delete_local_user admin_key
  delete_local_user-Preserves name free =
      elim (Bool-cases (name == role_string admin || name == role_string ops)) [
        | inl refused ↦ rw refused (Preserves-throw _)
        | inr other ↦ rw other (
            with_driver state_driver (λ d at.
              Preserves-then ((s.driver d at).read (local_user_key name)) (
                Preserves-then (delete_by_principal-Preserves env s name) (
                  Preserves-bind
                    (Preserves-attempt (
                      (s.driver d at).clear (local_user_key name)
                        (local_user_key-apart name free (not_admin name other))))
                    cleared-Preserves))))
      ]

  pub add_local_user-Preserves : (user : LocalUser) → Preserves I (add_local_user env user)
  unfolding add_local_user add_missing
  add_local_user-Preserves user = with_driver state_driver (λ d at.
      Preserves-bind (Preserves-attempt ((s.driver d at).read (local_user_key user.username)))
        (after d at))
    where
      after :
          (d : StateDriver World)
          → state_driver ≡ some d
          → (r : Result String) → Preserves I (add_missing env d user r)
      after d at (ok v) = Preserves-throw _
      after d at (err e) =
          Preserves-if (is_key_not_found e)
            (Preserves-bind (gen_password_hash-Preserves env s user.password) (λ h.
              store_user-Preserves d (local_user_key user.username)
                (record user { password_hash = h }) at))
            (Preserves-throw e)
