-- ===== src/State/Factory.antt =====
-- state/driverfactory.go: the choice of a driver, and the one instance of it.
--
-- `etcd_client` and `consul_client` make the clients of etcd and consul.
pub mod Choice
use auth_proxy.Prelude.{
  Bool, true, false, ◌==◌, ◌||◌, String, append, Option, none, some, if◌then◌else◌,
}
use auth_proxy.Errors.{Error, errorf, Result, ok, err}
use auth_proxy.Exec.{Exec, pure, throw, lift, ◌>>=◌, ◌>>◌}
use auth_proxy.Text.{is_empty, has_prefix}
use auth_proxy.Driver.{StateDriver}
use auth_proxy.State.Etcd
use auth_proxy.State.Consul

-- The types in `stateDriverRegistry`.
pub data DriverType : Type 0 where
  etcd_type consul_type : DriverType

-- `EtcdName` and `ConsulName`
abbrev pub etcd_name : String
etcd_name = "etcd"

abbrev pub consul_name : String
consul_name = "consul"

-- `initHelper` over `stateDriverRegistry`
unfoldable pub init_helper : String → Result DriverType
init_helper driver_name =
    if driver_name == etcd_name
    then ok etcd_type
    else if driver_name == consul_name
    then ok consul_type
    else err (errorf "Failed to find a registered driver for: %s")

-- A driver that was made: `Init` returned without an error, or it did not, which leaves the fields of
-- the driver nil.
pub data Instance (W : Type 0) : Type 0 where
  ready : StateDriver W → Instance W
  unready : Instance W

-- The state of the world beside the variable `stateDriver`.
abbrev pub Program : Type 0 → Type 0
Program W = W × Option (Instance W)

module _ {W : Type 0} (etcd_client : String → Exec W (Etcd.KeysApi W))
    (consul_client : String → Exec W (Consul.KvApi W)) where
  -- The `Init` of a type.
  unfoldable pub init : DriverType → String → Exec W (StateDriver W)
  init etcd_type store_url = Etcd.init etcd_client store_url
  init consul_type store_url = Consul.init consul_client store_url

  -- The variable is set before `Init` is called, and stays set.
  unfoldable pub installed : Result (StateDriver W) × W → Result (StateDriver W) × Program W
  installed (ok drv, w) = (ok drv, (w, some (ready drv)))
  installed (err e, w) = (err e, (w, some unready))

  -- `NewStateDriver`, with the URL of its configuration, if that is not nil
  unfoldable pub new_state_driver : String → Option String → Exec (Program W) (StateDriver W)
  unfolding init_helper init installed
  new_state_driver name none p = (err (errorf "Empty driver name or configuration"), p)
  new_state_driver name (some store_url) (w, some instance_) =
      if is_empty name
      then (err (errorf "Empty driver name or configuration"), (w, some instance_))
      else (err (errorf "StateDriver instance already exists %#v"), (w, some instance_))
  new_state_driver name (some store_url) (w, none) =
      if is_empty name
      then (err (errorf "Empty driver name or configuration"), (w, none))
      else elim (init_helper name) [
        | ok type ↦ installed (init type store_url w)
        | err e ↦ (err e, (w, none))
      ]

  unfoldable pub without_result : {V A : Type 0} → Exec V A → Exec V (Unit {0})
  without_result call = do call; pure tt

  -- `InitializeStateDriver`
  unfoldable pub initialize_state_driver : String → Exec (Program W) (Unit {0})
  unfolding without_result new_state_driver
  initialize_state_driver data_store_address =
      if is_empty data_store_address
      then throw (errorf "Empty data store address, please set --data-store-address")
      else if has_prefix data_store_address (append etcd_name "://")
      then without_result (new_state_driver etcd_name (some data_store_address))
      else if has_prefix data_store_address (append consul_name "://")
      then without_result (new_state_driver consul_name (some data_store_address))
      else throw (errorf "Invalid data store address")
