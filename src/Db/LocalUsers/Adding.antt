-- ===== src/Db/LocalUsers/Adding.antt =====
-- `AddLocalUser` over a store that keeps its laws and may fail at any call.
use auth_proxy.Prelude.{
  ◌∙◌, true, false, ◌≡◌, ◌≢◌, refl, String, Option, some, ◌==◌, Bool-cases, inl, inr,
}
use auth_proxy.Errors.{
  sentinel, is_key_not_found, is_key_not_found_lem, key_not_found, Result, ok, err, Result-cases,
}
use auth_proxy.Types.{LocalUser}
use auth_proxy.Driver.{StateDriver, get_state_driver-some}
use auth_proxy.Driver.Laws.{IsStore}
use auth_proxy.Env.{Env}
use auth_proxy.Crypto.{gen_password_hash}
use auth_proxy.Db.Keys.{local_user_key}
use auth_proxy.Db.LocalUsers.{add_missing, add_local_user, store_user}

module _ (env : Env) (drv : StateDriver env.World) (installed : env.state_driver ≡ some drv)
    (view : env.World → String → Option String) (store : IsStore drv view) where
  -- The steps of `AddLocalUser` after the driver is there.
  pub add_local_user-eq :
      (user : LocalUser) (w : env.World)
      → add_local_user env user w
        ≡ add_missing env drv user
            (drv.read (local_user_key user.username) w).0
            (drv.read (local_user_key user.username) w).1
  unfolding add_local_user
  add_local_user-eq user w = rw (get_state_driver-some env.state_driver drv w installed) refl

  refused :
      (user : LocalUser) (r : Result String) (w : env.World)
      → r ≢ err (sentinel key_not_found)
      → ((u : LocalUser) → (add_missing env drv user r w).0 ≢ ok u)
        × ((add_missing env drv user r w).1 ≡ w)
  unfolding add_missing
  refused user (ok v) w h = (λ u. cc, refl)
  refused user (err e) w h = elim (Bool-cases (is_key_not_found e)) [
    | inl missing ↦ absurd (h (rw (is_key_not_found_lem e missing) refl))
    | inr other ↦ rw other (λ u. cc, refl)
  ]

  -- Over a store that keeps its laws, adding a name that is taken fails, whatever else fails, and
  -- the store keeps every entry.
  pub add_local_user-keeps_taken :
      (user : LocalUser) (w : env.World) (v : String)
      → view w (local_user_key user.username) ≡ some v
      → ((u : LocalUser) → (add_local_user env user w).0 ≢ ok u)
        × ((j : String) → view (add_local_user env user w).1 j ≡ view w j)
  add_local_user-keeps_taken user w v taken =
      let key : String = local_user_key user.username in
      let present : (drv.read key w).0 ≢ err (sentinel key_not_found) =
        (λ e. cc (taken, store.read_missing key w e)) in
      let (fails, same) = refused user (drv.read key w).0 (drv.read key w).1 present in
      rw (add_local_user-eq user w) (fails, λ j. rw same (store.read_keeps key w j))

  -- What is in the store once a user was stored.
  pub record Stored (user : LocalUser) (key : String) (w w' : env.World) : Type 0 where
    pub value : String
    pub printed : env.local_user_json.marshal (record user { password = "" }) ≡ ok value
    pub found : view w' key ≡ some value
    pub others : (j : String) → (key == j) ≡ false → view w' j ≡ view w j

  store_user-Stored :
      (key : String) (user u : LocalUser) (w : env.World)
      → (store_user env drv key user w).0 ≡ ok u
      → Stored user key w (store_user env drv key user w).1
  unfolding store_user
  store_user-Stored key user u w h =
      elim (Result-cases (env.local_user_json.marshal (record user { password = "" }))) [
        | inr (e, bad) ↦ cc
        | inl (val, good) ↦ elim (Result-cases (drv.write key val w).0) [
          | inr (e, bad) ↦ cc (rw (good, bad) at h)
          | inl (x, done) ↦
              rw (good, done)
                (record {
                  value = val;
                  printed = good;
                  found = store.write_ok key val w (rw done refl);
                  others = store.write_keeps key val w;
                })
        ]
      ]

  -- What is needed of bcrypt: a hash fits the password that it was made of, and making it leaves
  -- the store alone.
  pub record HashesWell : Type 0 where
    pub fits :
        (p h : String) (w w' : env.World)
        → env.generate_from_password p w ≡ (ok h, w')
        → env.compare_hash_and_password h p ≡ true
    pub keeps :
        (p : String) (w : env.World) (j : String)
        → view (env.generate_from_password p w).1 j ≡ view w j

  -- The user that was stored, for the hash that was made in `w`.
  pub record Added (user : LocalUser) (w w' : env.World) : Type 0 where
    pub hash : String
    pub hashed : (env.generate_from_password user.password w).0 ≡ ok hash
    pub stored :
        Stored
          (record user { password_hash = hash })
          (local_user_key user.username)
          (env.generate_from_password user.password w).1
          w'

  pub add_missing-Added :
      (user u : LocalUser) (r : Result String) (w : env.World)
      → (add_missing env drv user r w).0 ≡ ok u
      → Added user w (add_missing env drv user r w).1
  unfolding add_missing gen_password_hash
  add_missing-Added user u (ok v) w h = cc
  add_missing-Added user u (err e) w h = elim (Bool-cases (is_key_not_found e)) [
    | inr other ↦ cc
    | inl missing ↦ elim (Result-cases (env.generate_from_password user.password w).0) [
      | inr (e', bad) ↦ cc (rw (missing, bad) at h)
      | inl (hash, good) ↦
          rw (missing, good)
            (record {
              hash = hash;
              hashed = good;
              stored =
                  store_user-Stored (local_user_key user.username)
                    (record user { password_hash = hash }) u _ (rw (missing, good) at h);
            })
    ]
  ]

  -- What a successful `AddLocalUser` has stored, after it read the key.
  pub add_local_user-Added :
      (user u : LocalUser) (w : env.World)
      → (add_local_user env user w).0 ≡ ok u
      → Added user (drv.read (local_user_key user.username) w).1 (add_local_user env user w).1
  add_local_user-Added user u w h = rw (add_local_user-eq user w) (
      add_missing-Added user u (drv.read (local_user_key user.username) w).0
        (drv.read (local_user_key user.username) w).1 (rw (add_local_user-eq user w) at h))

  -- Over a store that keeps its laws, and if making a hash leaves the store alone, a successful
  -- `AddLocalUser` has stored the user with a hash that was made of the password, without the
  -- password itself, and has changed no other key.
  pub add_local_user-stores :
      HashesWell
      → (user u : LocalUser) (w : env.World) → (add_local_user env user w).0 ≡ ok u
      → Added user (drv.read (local_user_key user.username) w).1 (add_local_user env user w).1
        × ((j : String)
            → (local_user_key user.username == j) ≡ false
            → view (add_local_user env user w).1 j ≡ view w j)
  add_local_user-stores hashes user u w h =
      let added = add_local_user-Added user u w h in
      (
        added,
        λ j apart.
            added.stored.others j apart
            ∙ hashes.keeps user.password (drv.read (local_user_key user.username) w).1 j
            ∙ store.read_keeps (local_user_key user.username) w j,
      )
