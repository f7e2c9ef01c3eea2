-- ===== src/Tests/ServerWitnesses.antt =====
-- The theorems about the server, its routes and its start at the deployment of the tests.
use mathlib.Core.List.{Memᴰ}
use auth_proxy.Proxy.Responses.Redacted.{Redacted}
use auth_proxy.Proxy.Routes.Redacted.{serve_request-Redacted}
use auth_proxy.Prelude.{
  ℕ, All, inl, pos, is_positive, leb_int, true, ◌≡◌, ◌⊎◌, refl, String, List, [], ◌∷◌, none, some,
  ◌==◌, if◌then◌else◌,
}
use auth_proxy.Errors.{errorf, is_key_not_found, Result, ok, err}
use auth_proxy.Exec.{otherwise}
use auth_proxy.Text.{is_empty, has_prefix, contains, replace_first}
use auth_proxy.Env.{Env}
use auth_proxy.Driver.{StateDriver}
use auth_proxy.Globals
use auth_proxy.State.Etcd
use auth_proxy.State.Consul
use auth_proxy.State.Factory.{
  ready, Program, initialize_state_driver, new_state_driver, without_result, init, installed,
  init_helper,
}
use auth_proxy.Proxy.Server
use auth_proxy.Proxy.Server.Timeouts.{Accepted, init-Accepted}
use auth_proxy.Proxy.Routes.{Route, public_routes, user_mgmt_routes, netmaster_routes, static_route}
use auth_proxy.Proxy.Routes.Closed.{IsClosed, IsManaged, management_routes}
use auth_proxy.Proxy.Responses.Answers.{is_own}
use auth_proxy.Proxy.Routes.Answered.{IsAnswered, serve_request-IsAnswered}
use auth_proxy.Proxy.Routes.Served.{table, server, serve_request-IsClosed, serve_request-IsManaged}
use auth_proxy.Types.{role_string}
use auth_proxy.Driver.{get_state_driver, write_state}
use auth_proxy.Crypto.{gen_password_hash}
use auth_proxy.Db.Keys.{local_user_key}
use auth_proxy.Db.LocalUsers as DbUsers
use auth_proxy.Db.LocalUsers.{store_user}
use auth_proxy.Db.Authorizations.{insert_authorization, write_authorization}
use auth_proxy.Auth.Authorizations.{add_role_authorization, insert_new}
use auth_proxy.Auth.DefaultUsers.{default_user, add_users, add_default_users}
use auth_proxy.Proxy.Status.{get_netmaster_version}
use auth_proxy.Start.{
  Flags, default_flags, server_config, is_compatible, compare_versions, netmaster_startup_check,
  driver_of, main,
}
use auth_proxy.Start.Started.{Started, main-Started}
use auth_proxy.Tests.Store.{Entries, find}
use auth_proxy.Tests.Deployment.{deployment, authorization_codec, request, config, start}
use auth_proxy.Tests.Routing.{nothing, fourth, adding, fourth-found, in_table}
use auth_proxy.Tests.Clients.{memory_keys, memory_kv}

abbrev accepted_server : Server.Server
accepted_server = record {
  config = config;
  netmaster_timeout = pos 10000000000;
  use_keepalives = true;
}

config-accepted : Server.init config ≡ ok accepted_server
unfolding Server.init is_positive leb_int Server.duration
config-accepted = refl

init-Accepted_example : Accepted config accepted_server
init-Accepted_example = init-Accepted config accepted_server config-accepted

no_ldap : String → String → Entries → Result (String × List String) × Entries
no_ldap username password w = (err (errorf "no server"), w)

abbrev test_table : List (Route Entries)
test_table = table deployment no_ldap nothing config fourth nothing

adding-managed : Memᴰ adding (management_routes deployment)
unfolding management_routes user_mgmt_routes
adding-managed = Memᴰ.head refl

serve_request-IsClosed_example :
    Memᴰ adding (public_routes deployment no_ldap nothing config)
    ⊎ (adding ≡ static_route deployment no_ldap nothing config)
    ⊎ IsClosed deployment
        (λ _. server deployment no_ldap nothing config fourth nothing request)
        (record request { vars = [] })
        start
serve_request-IsClosed_example =
    serve_request-IsClosed deployment no_ldap nothing config fourth nothing (in_table no_ldap)
      request adding [] start (fourth-found no_ldap)

serve_request-IsManaged_example :
    IsManaged deployment
      (λ _. server deployment no_ldap nothing config fourth nothing request)
      (record request { vars = [] })
      start
serve_request-IsManaged_example =
    serve_request-IsManaged deployment no_ldap nothing config fourth nothing request adding [] start
      (fourth-found no_ldap) adding-managed

serve_request-IsAnswered_example :
    (adding ≡ static_route deployment no_ldap nothing config)
    ⊎ IsAnswered
        (λ n. Memᴰ adding (netmaster_routes deployment config) ⊎ (is_own n ≡ true))
        (server deployment no_ldap nothing config fourth nothing request)
        start
serve_request-IsAnswered_example =
    serve_request-IsAnswered deployment no_ldap nothing config fourth nothing (in_table no_ldap)
      request adding [] start (fourth-found no_ldap) refl

adding-first : Memᴰ adding (user_mgmt_routes deployment)
unfolding user_mgmt_routes
adding-first = Memᴰ.head refl

serve_request-Redacted_example :
    All
      (Redacted deployment (record request { vars = [] }))
      (server deployment no_ldap nothing config fourth nothing request start).1.out
serve_request-Redacted_example =
    serve_request-Redacted deployment no_ldap nothing config fourth nothing request adding [] start
      (fourth-found no_ldap) (inl adding-first) tt

-- Netmaster tells its version.
abbrev versioned : Env
versioned = record deployment {
  netmaster_version_json = record { marshal = λ s. ok s; unmarshal = λ s. ok "1.2.0" };
}

abbrev versions : String → Result (ℕ × ℕ)
versions v = if v == "1.2.0" then ok (1, 2) else ok (1, 1)

abbrev to_keys : String → Entries → Result (Etcd.KeysApi Entries) × Entries
to_keys address w = (ok memory_keys, w)

abbrev to_kv : String → Entries → Result (Consul.KvApi Entries) × Entries
to_kv address w = (ok memory_kv, w)

abbrev flags : Flags
flags = record default_flags { data_store_address = "etcd://store" }

abbrev run : Result (Server.Server × Globals.GlobalMap) × Program Entries
run = main (λ name. "") versions "1.1.0" versioned to_keys to_kv flags ([], none)

abbrev outcome : Server.Server × Globals.GlobalMap
outcome = (
  record {
    config = server_config "1.1.0" flags;
    netmaster_timeout = pos 10000000000;
    use_keepalives = true;
  },
  ("tls_key_file", "local.key") ∷ [],
)

run-ends : run ≡ (ok outcome, run.1)
unfolding main otherwise initialize_state_driver new_state_driver without_result init installed
    init_helper is_empty has_prefix contains replace_first Etcd.init Etcd.make_directories
    Etcd.mkdir Etcd.mkdir_after Etcd.etcd_driver Etcd.read Etcd.write Etcd.retried_get
    Etcd.get_after add_default_users add_users DbUsers.add_local_user get_state_driver
    local_user_key find is_key_not_found store_user gen_password_hash default_user
    add_role_authorization insert_new insert_authorization write_authorization write_state
    authorization_codec role_string driver_of netmaster_startup_check get_netmaster_version
    compare_versions is_compatible Globals.set Server.init is_positive leb_int Server.duration
    server_config
run-ends = refl

main-Started_example :
    (drv : StateDriver Entries) × (w' : Entries) × (initialize_state_driver to_keys to_kv
        "etcd://store"
        ([], none)
      ≡ (ok tt, (w', some (ready drv))))
    × Started (λ name. "") versions "1.1.0" versioned to_keys to_kv flags (some (ready drv)) outcome
main-Started_example =
    main-Started (λ name. "") versions "1.1.0" versioned to_keys to_kv flags [] run.1 outcome
      run-ends
