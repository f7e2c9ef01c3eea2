-- ===== src/Tests/Routing.antt =====
-- A router that gives every request to the fourth route of the table, which adds a user.
use mathlib.Core.List.{Memᴰ}
use auth_proxy.Prelude.{false, ◌≡◌, refl, sym, String, List, [], ◌∷◌, Option, none, some}
use auth_proxy.Exec.{Exec, pure}
use auth_proxy.Env.{Request}
use auth_proxy.Proxy.Exchange.{Handler}
use auth_proxy.Proxy.Guards.{admin_only}
use auth_proxy.Proxy.LocalUsers.{add_local_user}
use auth_proxy.Proxy.Routes.{Route, routes, public_routes, user_mgmt_routes}
use auth_proxy.Tests.Store.{Entries}
use auth_proxy.Tests.Deployment.{deployment, request, config}

unfoldable pub nothing : Request → Handler Entries (Unit {0})
nothing req = pure tt

unfoldable pub fourth :
    List (Route Entries) → Request → Option (Route Entries × List (String × String))
fourth (a ∷ b ∷ c ∷ d ∷ rs) req = some (d, [])
fourth _ req = none

abbrev pub adding : Route Entries
adding = record {
  path = "/api/v1/auth_proxy/local_users/";
  is_prefix = false;
  methods = "POST" ∷ [];
  handler = admin_only deployment (add_local_user deployment);
}

module _ (ldap_authenticate : String → String → Exec Entries (String × List String)) where
  abbrev test_routes : List (Route Entries)
  test_routes = routes deployment ldap_authenticate nothing config

  pub fourth-found : fourth test_routes request ≡ some (adding, [])
  unfolding fourth routes public_routes user_mgmt_routes
  fourth-found = refl

  pub in_table :
      (req : Request) (r : Route Entries) (vars : List (String × String))
      → fourth test_routes req ≡ some (r, vars)
      → Memᴰ r test_routes
  unfolding fourth routes public_routes user_mgmt_routes
  in_table req r vars h =
      let same : adding ≡ r = cc h in Memᴰ.tail (Memᴰ.tail (Memᴰ.tail (Memᴰ.head (sym same))))

  pub no_vars :
      (req : Request) (r : Route Entries) (vars : List (String × String))
      → fourth test_routes req ≡ some (r, vars)
      → vars ≡ []
  unfolding fourth routes public_routes user_mgmt_routes
  no_vars req r vars h = cc h
