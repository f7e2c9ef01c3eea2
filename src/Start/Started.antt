-- ===== src/Start/Started.antt =====
-- What main.go has done when it begins to serve.
use auth_proxy.Prelude.{ℕ, ◌≡◌, refl, subst, ap, String, Option, none, some}
use auth_proxy.Errors.{panic, error_text, Result, ok, err}
use auth_proxy.Exec.{Exec, throw, lift, otherwise, continue}
use auth_proxy.Exec.Yields.{Yields, otherwise-ok, Yields-known, Yields-pure}
use auth_proxy.Driver.{StateDriver}
use auth_proxy.State.Etcd
use auth_proxy.State.Consul
use auth_proxy.State.Factory.{Instance, ready, Program, initialize_state_driver}
use auth_proxy.State.Factory.Choice.{initialize_state_driver-chooses}
use auth_proxy.Env.{Env}
use auth_proxy.Globals
use auth_proxy.Auth.DefaultUsers.{add_default_users}
use auth_proxy.Proxy.Server
use auth_proxy.Proxy.Server.Timeouts.{Accepted, init-Accepted}
use auth_proxy.Start.{
  Flags, server_config, netmaster_startup_check, fatal, in_world, driver_of, with_driver,
  after_store, main,
}
use auth_proxy.Start.Checked.{Checked, netmaster_startup_check-Checked}

module _ (get_env : String → String) (semver_make : String → Result (ℕ × ℕ))
    (program_version : String) (env : Env)
    (etcd_client : String → Exec env.World (Etcd.KeysApi env.World))
    (consul_client : String → Exec env.World (Consul.KvApi env.World)) (flags : Flags) where
  open env use {World}

  abbrev with_variable : Option (Instance World) → Env
  with_variable v = with_driver env (driver_of v)

  -- With the variable `stateDriver` as it is given, the default users were added, netmaster was
  -- checked, the name of the key's file was noted, and the timeouts were accepted.
  pub record Started (v : Option (Instance World)) (out : Server.Server × Globals.GlobalMap)
      : Type 0 where
    pub world : World
    pub users : (add_default_users (with_variable v) world).0 ≡ ok tt
    pub checked :
        Checked get_env semver_make program_version (with_variable v) flags.netmaster_address
    pub noted : Globals.set env.global "tls_key_file" flags.tls_key_file ≡ ok out.1
    pub accepted : Accepted (server_config program_version flags) out.0

  fatal-ok :
      {W A : Type 0} (call : Exec W A) (w : W) (a : A)
      → (fatal get_env semver_make program_version call w).0 ≡ ok a
      → (call w).0 ≡ ok a
  unfolding fatal
  fatal-ok call w a h = otherwise-ok (call w).0 (λ e. panic (error_text e)) (call w).1 a h

  after_store-Started :
      (v : Option (Instance World))
      → Yields
          (Started v)
          (after_store get_env semver_make program_version env etcd_client consul_client flags v)
  unfolding after_store
  after_store-Started v =
      Yields-known (fatal get_env semver_make program_version (add_default_users (with_variable v)))
        _
        (λ w1 _ users.
          Yields-known
            (fatal get_env semver_make program_version (
              netmaster_startup_check get_env semver_make program_version (with_variable v)
                flags.netmaster_address))
            _
            (λ w2 _ check.
              Yields-known
                (fatal get_env semver_make program_version
                  (lift (Globals.set env.global "tls_key_file" flags.tls_key_file)))
                _
                (λ w3 g noted.
                  Yields-known (lift (Server.init (server_config program_version flags))) _
                    (λ w4 s made.
                      Yields-pure (s, g)
                        (record {
                          world = w1;
                          users = fatal-ok (add_default_users (with_variable v)) w1 tt users;
                          checked =
                              netmaster_startup_check-Checked get_env semver_make program_version
                                (with_variable v) flags.netmaster_address w2
                                (fatal-ok
                                  (netmaster_startup_check get_env semver_make program_version
                                    (with_variable v) flags.netmaster_address)
                                  w2 tt check);
                          noted =
                              fatal-ok
                                (lift (Globals.set env.global "tls_key_file" flags.tls_key_file)) w3
                                g noted;
                          accepted = init-Accepted (server_config program_version flags) s made;
                        })))))

  -- If the program gets as far as to serve, starting without a driver, then the address of the data
  -- store chose a driver, which is ready; with that driver the default users were added and netmaster
  -- was checked; the path of the key is in the map of globals; and `Init` accepted the timeouts.
  pub main-Started :
      (w : World) (p : Program World) (out : Server.Server × Globals.GlobalMap)
      → main get_env semver_make program_version env etcd_client consul_client flags (w, none)
        ≡ (ok out, p)
      → (drv : StateDriver World) × (w' : World) × (initialize_state_driver etcd_client
            consul_client flags.data_store_address
            (w, none)
          ≡ (ok tt, (w', some (ready drv))))
        × Started (some (ready drv)) out
  unfolding main otherwise in_world
  main-Started w p out h =
      go (initialize_state_driver etcd_client consul_client flags.data_store_address (w, none)) refl
        h
    where
      rest : Program World → Result (Server.Server × Globals.GlobalMap) × Program World
      rest q =
          in_world get_env semver_make program_version
            (after_store get_env semver_make program_version env etcd_client consul_client flags
              q.1)
            q

      go :
          (made : Result (Unit {0}) × Program World)
          → initialize_state_driver etcd_client consul_client flags.data_store_address (w, none)
            ≡ made
          → (let (r, q) = (otherwise made.0 (λ e. throw (panic (error_text e))) made.1) in
              continue r (λ _. rest) q)
            ≡ (ok out, p)
          → (drv : StateDriver World) × (w' : World) × (initialize_state_driver etcd_client
                consul_client flags.data_store_address
                (w, none)
              ≡ (ok tt, (w', some (ready drv))))
            × Started (some (ready drv)) out
      go (err e, q) is h = cc
      go (ok _, (w', v)) is h =
          let (drv, set, _) =
            initialize_state_driver-chooses etcd_client consul_client flags.data_store_address w
              (w', v) is in
          let began : (after_store get_env semver_make program_version env etcd_client consul_client
                flags v w').0
              ≡ ok out =
            ap (λ r. r.0) h in
          (
            drv,
            w',
            subst
                (λ u.
                  initialize_state_driver etcd_client consul_client flags.data_store_address
                    (w, none)
                  ≡ (ok tt, (w', u)))
                set is,
            (after_store-Started (some (ready drv))).at w' out (
                subst
                  (λ u.
                    (after_store get_env semver_make program_version env etcd_client consul_client
                      flags u w').0
                    ≡ ok out)
                  set began),
          )
