-- ===== src/Start.antt =====
-- main.go: the flags, the check of netmaster's version, and the order in which the parts are started.
--
-- `get_env` is os.Getenv, and `semver_make` the major and the minor number that semver.Make finds.
pub mod Checked
pub mod Started
use auth_proxy.Prelude.{
  ℕ, ℤ, pos, nat_eq, leb, Bool, true, false, not, ◌==◌, ◌&&◌, String, append, Option, none, some,
  if◌then◌else◌,
}
use auth_proxy.Errors.{Error, errorf, panic, error_text, Result, ok, err}
use auth_proxy.Exec.{Exec, pure, throw, lift, attempt, otherwise, ◌>>=◌, ◌>>◌}
use auth_proxy.Driver.{StateDriver}
use auth_proxy.State.Etcd
use auth_proxy.State.Consul
use auth_proxy.State.Factory.{Instance, ready, unready, Program, initialize_state_driver}
use auth_proxy.Env.{Env, Config}
use auth_proxy.Globals
use auth_proxy.Auth.DefaultUsers.{add_default_users}
use auth_proxy.Proxy.Status.{get_netmaster_version}
use auth_proxy.Proxy.Server

-- `DefaultVersion` and `ProgramName`
abbrev pub default_version : String
default_version = "devbuild"

abbrev pub program_name : String
program_name = "Auth Proxy"

-- `DefaultNetmasterRequestTimeout`, `DefaultClientReadTimeout` and `DefaultClientWriteTimeout`
abbrev pub default_netmaster_request_timeout : ℤ
default_netmaster_request_timeout = pos 10

abbrev pub default_client_read_timeout : ℤ
default_client_read_timeout = pos 5

abbrev pub default_client_write_timeout : ℤ
default_client_write_timeout = pos 11

-- The variables of the flags.
pub record Flags : Type 0 where
  pub netmaster_request_timeout : ℤ
  pub client_read_timeout : ℤ
  pub client_write_timeout : ℤ
  pub listen_address : String
  pub netmaster_address : String
  pub tls_key_file : String
  pub tls_certificate : String
  pub debug : Bool
  pub data_store_address : String

-- The flags that `processFlags` leaves when the command line has none.
abbrev pub default_flags : Flags
default_flags = record {
  netmaster_request_timeout = default_netmaster_request_timeout;
  client_read_timeout = default_client_read_timeout;
  client_write_timeout = default_client_write_timeout;
  listen_address = ":10000";
  netmaster_address = "localhost:9999";
  tls_key_file = "local.key";
  tls_certificate = "cert.pem";
  debug = false;
  data_store_address = "";
}

-- The configuration of the server.
unfoldable pub server_config : String → Flags → Config
server_config program_version flags = record {
  name = program_name;
  version = program_version;
  netmaster_address = flags.netmaster_address;
  listen_address = flags.listen_address;
  tls_certificate = flags.tls_certificate;
  tls_key_file = flags.tls_key_file;
  netmaster_request_timeout = flags.netmaster_request_timeout;
  client_read_timeout = flags.client_read_timeout;
  client_write_timeout = flags.client_write_timeout;
}

-- The comparison of netmaster's major and minor numbers with the proxy's.
unfoldable pub is_compatible : ℕ × ℕ → ℕ × ℕ → Bool
is_compatible (netmaster_major, netmaster_minor) (proxy_major, proxy_minor) =
    nat_eq netmaster_major proxy_major && leb proxy_minor netmaster_minor

-- The driver in use, which is ready once `InitializeStateDriver` succeeded.
unfoldable pub driver_of : {W : Type 0} → Option (Instance W) → Option (StateDriver W)
driver_of (some (ready drv)) = some drv
driver_of (some unready) = none
driver_of none = none

abbrev pub with_driver : (env : Env) → Option (StateDriver env.World) → Env
with_driver env drv = record env { state_driver = drv }

module _ (get_env : String → String) (semver_make : String → Result (ℕ × ℕ))
    (program_version : String) where
  version_of : {W : Type 0} → String → String → Exec W (ℕ × ℕ)
  version_of text version = do
    made ← lift (ok (semver_make version))
    otherwise made (λ e. throw (errorf (append text (error_text e))))

  -- The end of `netmasterStartupCheck`, which compares the versions.
  unfoldable pub compare_versions : {W : Type 0} → String → Exec W (Unit {0})
  unfolding version_of is_compatible
  compare_versions netmaster_version = do
    proxy_ver ← version_of "failed to create semver from proxy version '%s': " program_version
    netmaster_ver ←
        version_of "failed to create semver from netmaster version '%s': " netmaster_version
    if is_compatible netmaster_ver proxy_ver
        then pure tt
        else throw (errorf "%s and netmaster versions are incompatible (%s: %q, netmaster: %q)")

  -- `netmasterStartupCheck`
  unfoldable pub netmaster_startup_check : (env : Env) → String → Exec env.World (Unit {0})
  unfolding get_netmaster_version compare_versions
  netmaster_startup_check env netmaster_address =
      if not (get_env "NO_NETMASTER_STARTUP_CHECK" == "") then pure tt else do
        netmaster_version ← get_netmaster_version env netmaster_address
        if default_version == program_version
            then pure tt
            else if not (get_env "NO_NETMASTER_SEMVER_CHECK" == "")
            then pure tt
            else compare_versions netmaster_version

  -- `log.Fatalln` of an error ends the program.
  unfoldable pub fatal : {W A : Type 0} → Exec W A → Exec W A
  fatal call = do r ← attempt call; otherwise r (λ e. throw (panic (error_text e)))

  -- A call that does not touch the variable `stateDriver`.
  unfoldable pub in_world : {W V A : Type 0} → Exec W A → Exec (W × V) A
  in_world call (w, v) = let (r, w') = call w in (r, (w', v))

  abbrev pub state_driver_variable : {W : Type 0} → Exec (Program W) (Option (Instance W))
  state_driver_variable p = (ok p.1, p)

  module _ (env : Env) (etcd_client : String → Exec env.World (Etcd.KeysApi env.World))
      (consul_client : String → Exec env.World (Consul.KvApi env.World)) (flags : Flags) where
    open env use {World}

    -- What `main` does once there is a driver.
    unfoldable pub after_store :
        Option (Instance World) → Exec World (Server.Server × Globals.GlobalMap)
    unfolding driver_of
    after_store v = do
      fatal (add_default_users (with_driver env (driver_of v)))
      fatal (netmaster_startup_check (with_driver env (driver_of v)) flags.netmaster_address)
      global ← fatal (lift (Globals.set env.global "tls_key_file" flags.tls_key_file))
      server ← lift (Server.init (server_config program_version flags))
      pure (server, global)

    -- `main` up to the point where it serves: the server, and the map `global`.
    unfoldable pub main : Exec (Program World) (Server.Server × Globals.GlobalMap)
    unfolding fatal in_world after_store
    main = do
      fatal (initialize_state_driver etcd_client consul_client flags.data_store_address)
      v ← state_driver_variable
      in_world (after_store v)
