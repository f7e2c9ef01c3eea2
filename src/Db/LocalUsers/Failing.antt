-- ===== src/Db/LocalUsers/Failing.antt =====
-- The errors of reading users (db/local.go).
use auth_proxy.Prelude.{
  true, ◌≡◌, ◌⊎◌, inl, inr, Bool-cases, String, List, [], ◌∷◌, Option, none, some,
}
use auth_proxy.Errors.{
  Error, errorf, sentinel, is_key_not_found, state_driver_not_created, Result, ok, err,
  Result-cases,
}
use auth_proxy.Exec.{attempt, ◌>>=◌}
use auth_proxy.Driver.{StateDriver, get_state_driver, unmarshal_all-err}
use auth_proxy.Env.{Env}
use auth_proxy.Db.Keys.{get_path, local_user_key, root_local_users}
use auth_proxy.Db.LocalUsers.{users_read, get_local_users, user_parsed, user_read, get_local_user}

module _ (env : Env) where
  open env use {World, local_user_json}

  -- The errors of `GetLocalUser`.
  abbrev pub UserUnread : Error → Type 0
  UserUnread e =
      (is_key_not_found e ≡ true)
      ⊎ (e ≡ sentinel state_driver_not_created)
      ⊎ (e ≡ errorf "Failed to unmarshal local user %q info %#v")
      ⊎ (e ≡ errorf "Failed to read local user %q data from store: %#v")

  user_read-UserUnread :
      (r : Result String) (w : World) (e : Error) → (user_read env r w).0 ≡ err e → UserUnread e
  unfolding user_read user_parsed
  user_read-UserUnread (ok raw) w e h = elim (Result-cases (local_user_json.unmarshal raw)) [
    | inl (user, good) ↦ cc (rw good at h)
    | inr (e', bad) ↦ inr (inr (inl (cc (rw bad at h))))
  ]
  user_read-UserUnread (err e') w e h = elim (Bool-cases (is_key_not_found e')) [
    | inl missing ↦ let same : e' ≡ e = cc (rw missing at h) in inl (rw (← same) missing)
    | inr other ↦ inr (inr (inr (cc (rw other at h))))
  ]

  driven-UserUnread :
      (d : Option (StateDriver World)) (name : String) (w : World) (e : Error)
      → ((get_state_driver d >>= λ drv. attempt (drv.read (local_user_key name)) >>= user_read env)
          w).0
        ≡ err e
      → UserUnread e
  unfolding get_state_driver
  driven-UserUnread none name w e h = inr (inl (cc h))
  driven-UserUnread (some drv) name w e h =
      let (r, w') = drv.read (local_user_key name) w in user_read-UserUnread r w' e h

  pub get_local_user-UserUnread :
      (name : String) (w : World) (e : Error) → (get_local_user env name w).0 ≡ err e → UserUnread e
  unfolding get_local_user
  get_local_user-UserUnread name w e h = driven-UserUnread env.state_driver name w e h

  -- The errors of `GetLocalUsers`.
  abbrev pub UsersUnread : Error → Type 0
  UsersUnread e =
      (e ≡ sentinel state_driver_not_created)
      ⊎ (e ≡ errorf "Couldn't fetch users from data store")
      ⊎ ((raw : String) × (local_user_json.unmarshal raw ≡ err e))

  driven-UsersUnread :
      (d : Option (StateDriver World)) (w : World) (e : Error)
      → ((get_state_driver d >>= λ drv.
            attempt (drv.read_all (get_path (root_local_users ∷ []))) >>= users_read env)
          w).0
        ≡ err e
      → UsersUnread e
  unfolding get_state_driver users_read
  driven-UsersUnread none w e h = inl (cc h)
  driven-UsersUnread (some drv) w e h =
      listed (drv.read_all (get_path (root_local_users ∷ [])) w).0 h
    where
      listed :
          (r : Result (List String))
          → (users_read env r (drv.read_all (get_path (root_local_users ∷ [])) w).1).0 ≡ err e
          → UsersUnread e
      listed (ok raw) k = inr (inr (unmarshal_all-err local_user_json raw e k))
      listed (err e') k = elim (Bool-cases (is_key_not_found e')) [
        | inl missing ↦ cc (rw missing at k)
        | inr other ↦ inr (inl (cc (rw other at k)))
      ]

  pub get_local_users-UsersUnread :
      (w : World) (e : Error) → (get_local_users env w).0 ≡ err e → UsersUnread e
  unfolding get_local_users
  get_local_users-UsersUnread w e h = driven-UsersUnread env.state_driver w e h
