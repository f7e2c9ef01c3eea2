-- ===== src/Tests/RunWitnesses.antt =====
-- The theorem about the runs of the server at the deployment of the tests.
use mathlib.Core.List.{Memᴰ}
use auth_proxy.Prelude.{◌≡◌, refl, String, List, [], ◌∷◌, some}
use auth_proxy.Env.{Request}
use auth_proxy.Env.Sparing.{admin_key, SparingPackages}
use auth_proxy.Text.Splitting.{is_free}
use auth_proxy.Auth.Ldap.{ldap_authenticate}
use auth_proxy.Auth.Ldap.Preserving.{SparingLdap}
use auth_proxy.Db.Keys.{local_user_key, get_path}
use auth_proxy.Proxy.Exchange.{Handler, var}
use auth_proxy.Proxy.Exchange.Preserving.{NoSlash, Spares}
use auth_proxy.Proxy.Routes.{Route, routes}
use auth_proxy.Proxy.Routes.Served.{server}
use auth_proxy.Proxy.Routes.Runs.{HasAdmin, WritesAtOnce, request, start, next, Run-keeps_admin}
use auth_proxy.Tests.Store.{Entries, find, memory, memory-IsStore}
use auth_proxy.Tests.Deployment.{deployment, request as get_networks, config, entries}
use auth_proxy.Tests.Routing.{nothing, fourth, in_table, no_vars}
use auth_proxy.Tests.Clients.{friendly}

abbrev with_admin : Entries
with_admin = ("auth_proxy/local_users/admin", "hash of admin") ∷ entries

with_admin-HasAdmin : HasAdmin find with_admin
unfolding find admin_key local_user_key get_path
with_admin-HasAdmin = ("hash of admin", refl)

memory-WritesAtOnce : WritesAtOnce memory find
memory-WritesAtOnce = record { write_failed = λ k v w e h. cc }

-- The stand-ins of the packages do not touch the store.
packages-Spare : SparingPackages deployment (HasAdmin find)
packages-Spare = record {
  now = λ w h. h;
  intn = λ n w h. h;
  new_uuid = λ w h. h;
  generate_from_password = λ p. record { at = λ w h. h };
  read_file = λ name. record { at = λ w h. h };
  encrypt_oaep = λ k s. record { at = λ w h. h };
  decrypt_oaep = λ k s. record { at = λ w h. h };
  jwt_parse = λ token key kk. record { at = λ w h. h };
  http_get = λ address. record { at = λ w h. h };
  client_do = λ req. record { at = λ w h. h };
}

friendly-Sparing : SparingLdap {W = Entries} friendly (HasAdmin find)
friendly-Sparing = record {
  dial = λ address. record { at = λ w h. h };
  start_tls = λ c t. record { at = λ w h. h };
  bind = λ c name password. record { at = λ w h. h };
  search = λ c r. record { at = λ w h. h };
  close = λ c w h. h;
}

nothing-Spares : (req : Request) → Spares (HasAdmin find) (nothing req)
unfolding nothing
nothing-Spares req = record { at = λ x h. h }

known :
    (req : Request) (r : Route Entries) (vars : List (String × String))
    → fourth (routes deployment (ldap_authenticate deployment friendly 5) nothing config) req
      ≡ some (r, vars)
    → Memᴰ r (routes deployment (ldap_authenticate deployment friendly 5) nothing config)
      × NoSlash (record req { vars = vars })
unfolding var is_free
known req r vars h = (
  in_table (ldap_authenticate deployment friendly 5) req r vars h,
  rw (no_vars (ldap_authenticate deployment friendly 5) req r vars h) refl,
)

abbrev test_server : Request → Handler Entries (Unit {0})
test_server =
    server deployment (ldap_authenticate deployment friendly 5) nothing config fourth nothing

-- The world after two requests.
abbrev after_two : Entries
after_two =
    let once =
      (test_server get_networks (record { world = with_admin; out = []; sent = [] })).1.world in
    (test_server get_networks (record { world = once; out = []; sent = [] })).1.world

Run-keeps_admin_example : HasAdmin find after_two
Run-keeps_admin_example =
    Run-keeps_admin deployment memory refl find memory-IsStore memory-WritesAtOnce packages-Spare
      friendly friendly-Sparing 5 nothing nothing-Spares config fourth nothing nothing-Spares known
      with_admin after_two with_admin-HasAdmin
      (next (next start (request with_admin get_networks)) (request _ get_networks))
