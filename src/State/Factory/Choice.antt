-- ===== src/State/Factory/Choice.antt =====
-- The driver that state/driverfactory.go chooses, and that it chooses once.
use auth_proxy.Prelude.{
  true, false, ◌≡◌, ◌⊎◌, refl, sym, ap, String, Option, none, some, Bool-cases, inl, inr,
}
use auth_proxy.Errors.{Error, errorf, Result, ok, err}
use auth_proxy.Exec.{Exec}
use auth_proxy.Text.{is_empty, has_prefix}
use auth_proxy.Driver.{StateDriver}
use auth_proxy.State.Etcd
use auth_proxy.State.Consul
use auth_proxy.State.Factory.{
  DriverType, init_helper, Instance, ready, unready, Program, init, installed, new_state_driver,
  without_result, initialize_state_driver,
}

module _ {W : Type 0} (etcd_client : String → Exec W (Etcd.KeysApi W))
    (consul_client : String → Exec W (Consul.KvApi W)) where
  refused :
      (name : String) (config : Option String) (w : W) (i : Instance W)
      → (e : Error) × (new_state_driver etcd_client consul_client name config (w, some i)
          ≡ (err e, (w, some i)))
  unfolding new_state_driver
  refused name none w i = (errorf "Empty driver name or configuration", refl)
  refused name (some url) w i = elim (Bool-cases (is_empty name)) [
    | inl empty ↦ (errorf "Empty driver name or configuration", rw empty refl)
    | inr named ↦ (errorf "StateDriver instance already exists %#v", rw named refl)
  ]

  -- A program with a driver.
  abbrev Settled : Program W → Type 0
  Settled p =
      ((i : Instance W) × (p.1 ≡ some i))
      × ((name : String) (config : Option String)
          → (e : Error) × (new_state_driver etcd_client consul_client name config p ≡ (err e, p)))

  installed-Settled :
      (r : Result (StateDriver W)) (w : W) → Settled (installed etcd_client consul_client (r, w)).1
  unfolding installed
  installed-Settled (ok drv) w =
      ((ready drv, refl), λ name config. refused name config w (ready drv))
  installed-Settled (err e) w = ((unready, refl), λ name config. refused name config w unready)

  -- Once `NewStateDriver` was called in a program without a driver, with the name of a driver and
  -- a configuration, whether `Init` succeeded or not, the variable is set, and every later call
  -- fails and changes nothing.
  pub new_state_driver-once :
      (name store_url : String) (type : DriverType) (w : W)
      → is_empty name ≡ false
      → init_helper name ≡ ok type
      → Settled (new_state_driver etcd_client consul_client name (some store_url) (w, none)).1
  unfolding new_state_driver
  new_state_driver-once name store_url type w named known =
      let (r, w') = init etcd_client consul_client type store_url w in
      rw (named, known) (installed-Settled r w')

  -- What `Init` of a type returned, if the variable holds a driver that is ready.
  installed-ok :
      (out : Result (StateDriver W) × W) (p : Program W)
      → without_result etcd_client consul_client
          (λ (q : Program W). installed etcd_client consul_client out)
          (out.1, none)
        ≡ (ok tt, p)
      → (drv : StateDriver W) × (p.1 ≡ some (ready drv)) × (out ≡ (ok drv, p.0))
  unfolding installed without_result
  installed-ok (ok drv, w) p h =
      let world : w ≡ p.0 = ap (λ r. r.1.0) h in (drv, sym (ap (λ r. r.1.1) h), rw world refl)
  installed-ok (err e, w) p h = cc

  -- If `InitializeStateDriver` succeeds on a program without a driver, then the address begins with
  -- the name of etcd or of consul, and the variable holds the driver that `Init` of that store made.
  pub initialize_state_driver-chooses :
      (address : String) (w : W) (p : Program W)
      → initialize_state_driver etcd_client consul_client address (w, none) ≡ (ok tt, p)
      → (drv : StateDriver W) × (p.1 ≡ some (ready drv))
        × ((has_prefix address "etcd://" ≡ true) × (Etcd.init etcd_client address w ≡ (ok drv, p.0))
            ⊎ (has_prefix address "consul://" ≡ true)
              × (Consul.init consul_client address w ≡ (ok drv, p.0)))
  unfolding initialize_state_driver new_state_driver init init_helper without_result Etcd.init
      is_empty
  initialize_state_driver-chooses address w p h = elim (Bool-cases (is_empty address)) [
    | inl empty ↦ let h' = (rw empty at h) in cc h'
    | inr given ↦ elim (Bool-cases (has_prefix address "etcd://")) [
      | inl etcd ↦
          let (drv, set, made) =
            installed-ok (Etcd.init etcd_client address w) p (rw (given, etcd) at h) in
          (drv, set, inl (etcd, made))
      | inr not_etcd ↦ elim (Bool-cases (has_prefix address "consul://")) [
        | inl consul ↦
            let (drv, set, made) =
              installed-ok (Consul.init consul_client address w) p
                (rw (given, not_etcd, consul) at h) in
            (drv, set, inr (consul, made))
        | inr neither ↦ let h' = (rw (given, not_etcd, neither) at h) in cc h'
      ]
    ]
  ]
