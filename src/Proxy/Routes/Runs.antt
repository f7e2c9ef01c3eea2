-- ===== src/Proxy/Routes/Runs.antt =====
-- The runs of the server of proxy/proxy.go: requests that are served one after the other.
--
-- The packages, the client of LDAP and the handlers that are not the program's own are taken not to
-- remove the entry of the built-in administrator from the store.
use mathlib.Core.List.{Memᴰ}
use auth_proxy.Prelude.{
  ℕ, ◌≡◌, ◌⊎◌, inl, inr, ◌∙◌, subst, String, List, [], Option, some, ap, ◌==◌, Bool-cases, eq_iff,
}
use auth_proxy.Errors.{Error, err, Result-cases}
use auth_proxy.Driver.{StateDriver}
use auth_proxy.Driver.Laws.{IsStore}
use auth_proxy.Env.{Env, Request, Config}
use auth_proxy.Env.Sparing.{admin_key, SparingPackages, SparingDriver, Sparing}
use auth_proxy.Proxy.Exchange.{Handler}
use auth_proxy.Proxy.Exchange.Preserving.{NoSlash, Spares}
use auth_proxy.Proxy.Routes.{Route, routes}
use auth_proxy.Auth.Ldap.{Ldap, ldap_authenticate}
use auth_proxy.Auth.Ldap.Preserving.{SparingLdap, ldap_authenticate-Preserves}
use auth_proxy.Proxy.Routes.Spared.{server-Spares}
use auth_proxy.Proxy.Routes.Served.{server}

-- The entry of the administrator is there.
abbrev pub HasAdmin : {W : Type 0} → (W → String → Option String) → W → Type 0
HasAdmin view w = (v : String) × (view w admin_key ≡ some v)

-- A write that fails has left the key's entry as it was, or has written it all the same.
pub record WritesAtOnce {W : Type 0} (drv : StateDriver W) (view : W → String → Option String)
    : Type 0 where
  pub write_failed :
      (k v : String) (w : W) (e : Error)
      → (drv.write k v w).0 ≡ err e
      → (view (drv.write k v w).1 k ≡ view w k) ⊎ (view (drv.write k v w).1 k ≡ some v)

module _ {W : Type 0} (drv : StateDriver W) (view : W → String → Option String)
    (store : IsStore drv view) (at_once : WritesAtOnce drv view) where
  write-HasAdmin : (k v : String) (w : W) → HasAdmin view w → HasAdmin view (drv.write k v w).1
  write-HasAdmin k v w (u, held) = elim (Bool-cases (k == admin_key)) [
    | inr other ↦ (u, store.write_keeps k v w admin_key other ∙ held)
    | inl same ↦
        let here : k ≡ admin_key = (eq_iff k admin_key).0 same in
        subst (λ j. (x : String) × (view (drv.write k v w).1 j ≡ some x)) here
          (elim (Result-cases (drv.write k v w).0) [
            | inl (x, done) ↦ (v, store.write_ok k v w done)
            | inr (e, failed) ↦ elim (at_once.write_failed k v w e failed) [
              | inl kept ↦ (u, kept ∙ ap (view w) here ∙ held)
              | inr written ↦ (v, written)
            ]
          ])
  ]

  driver-Sparing : SparingDriver drv (HasAdmin view)
  driver-Sparing = record {
    read = λ k. record { at = λ w h. (h.0, store.read_keeps k w admin_key ∙ h.1) };
    read_all = λ k. record { at = λ w h. (h.0, store.read_all_keeps k w admin_key ∙ h.1) };
    write = λ k v. record { at = λ w h. write-HasAdmin k v w h };
    clear = λ k apart. record { at = λ w h. (h.0, store.clear_keeps k w admin_key apart ∙ h.1) };
  }

-- A request that is served on its own, and the requests that are served one after the other.
pub data Serves {W : Type 0} (serve : Request → Handler W (Unit {0})) : W → W → Type 0 where
  request :
      (w : W) (req : Request)
      → Serves serve w (serve req (record { world = w; out = []; sent = [] })).1.world

pub data Run {W : Type 0} (serve : Request → Handler W (Unit {0})) (w : W) : W → Type 0 where
  start : Run serve w w
  next : {u v : W} → Run serve w u → Serves serve u v → Run serve w v

module _ {W : Type 0} (I : W → Type 0) (serve : Request → Handler W (Unit {0}))
    (spares : (req : Request) → Spares I (serve req)) where
  Serves-keeps : {u v : W} → Serves serve u v → I u → I v
  Serves-keeps (request w req) h = (spares req).at (record { world = w; out = []; sent = [] }) h

  Run-keeps : {w w' : W} → Run serve w w' → I w → I w'
  Run-keeps start h = h
  Run-keeps (next r st) h = Serves-keeps st (Run-keeps r h)

module _ (env : Env) (drv : StateDriver env.World) (installed : env.state_driver ≡ some drv)
    (view : env.World → String → Option String) (store : IsStore drv view)
    (at_once : WritesAtOnce drv view) (packages : SparingPackages env (HasAdmin view)) where
  open env use {World}

  env-Sparing : Sparing env (HasAdmin view)
  env-Sparing = record {
    packages = packages;
    driver = λ d at.
        (let same : drv ≡ d = cc (at, installed) in
          subst (λ c. SparingDriver c (HasAdmin view)) same
            (driver-Sparing drv view store at_once));
  }

  -- Over a store that keeps its laws and whose writes are done at once or not at all, the entry of the
  -- built-in administrator stays through every run of requests, whoever sends them and whatever fails,
  -- if it was there at the start: no request removes it. The router gives requests to routes of the
  -- table only, with a user's name that has no slash; the packages, the client of LDAP and the handlers
  -- that are not the program's own do not remove the entry themselves.
  pub Run-keeps_admin :
      (ldap : Ldap World)
      → SparingLdap ldap (HasAdmin view)
      → (fuel : ℕ) (file_server : Request → Handler World (Unit {0}))
      → ((req : Request) → Spares (HasAdmin view) (file_server req))
      → (config : Config)
        (router : List (Route World) → Request → Option (Route World × List (String × String)))
        (not_found : Request → Handler World (Unit {0}))
      → ((req : Request) → Spares (HasAdmin view) (not_found req))
      → ((req : Request) (r : Route World) (vars : List (String × String))
          → router (routes env (ldap_authenticate env ldap fuel) file_server config) req
            ≡ some (r, vars)
          → Memᴰ r (routes env (ldap_authenticate env ldap fuel) file_server config)
            × NoSlash (record req { vars = vars }))
      → (w w' : World) → HasAdmin view w
      → Run (server env (ldap_authenticate env ldap fuel) file_server config router not_found) w w'
      → HasAdmin view w'
  Run-keeps_admin ldap client fuel file_server files config router not_found missing in_table w w' h
        run =
      Run-keeps (HasAdmin view) _
        (server-Spares env env-Sparing (ldap_authenticate env ldap fuel)
          (ldap_authenticate-Preserves env env-Sparing ldap client fuel) file_server files config
          router not_found missing in_table)
        run h
