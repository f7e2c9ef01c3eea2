-- ===== src/Proxy/Routes/Answered.antt =====
-- The statuses of the replies of the routes of proxy/proxy.go.
use mathlib.Core.List.{Memᴰ}
use auth_proxy.Prelude.{
  ℕ, ◌≡◌, ◌⊎◌, inl, inr, refl, true, false, String, List, [], Option, none, some, All,
}
use auth_proxy.Errors.{Error, is_panic, Result, ok, err}
use auth_proxy.Exec.{Exec}
use auth_proxy.Env.{Env, Request, Config}
use auth_proxy.Proxy.Exchange.{Exchange, Handler, receive_all, received}
use auth_proxy.Proxy.Exchange.Answers.{Stands, Ends, status_of, Answers}
use auth_proxy.Proxy.Responses.Answers.{is_own}
use auth_proxy.Proxy.Guards.Answers.{admin_only-Answers, authorized_user_only-Answers}
use auth_proxy.Proxy.LocalUsers.Answers.{
  add_local_user-Answers, delete_local_user-Answers, update_local_user-Answers,
  get_local_users-Answers, get_local_user-Answers,
}
use auth_proxy.Proxy.LdapConfigurations.Answers.{
  add_ldap_configuration-Answers, get_ldap_configuration-Answers, delete_ldap_configuration-Answers,
  update_ldap_configuration-Answers,
}
use auth_proxy.Proxy.Authorizations.Answers.{
  add_authorization-Answers, delete_authorization-Answers, get_authorization-Answers,
  list_authorizations-Answers,
}
use auth_proxy.Proxy.Login.Answers.{login_handler-Answers}
use auth_proxy.Proxy.Status.Answers.{health_check_handler-Answers, version_handler-Answers}
use auth_proxy.Proxy.Rbac.Answers.{enforce_rbac-Answers}
use auth_proxy.Proxy.Routes.{
  Route, user_mgmt_routes, authorization_routes, ldap_configuration_mgmt_routes, netmaster_routes,
  public_routes, static_route, routes, routed, serve_request,
}
use auth_proxy.Proxy.Routes.Closed.{all-mem, management_routes}
use auth_proxy.Proxy.Routes.Served.{server, table-cases}

-- The handler panics, or the client receives a status of `P`.
abbrev pub IsAnswered : {W : Type 0} → (ℕ → Type 0) → Handler W (Unit {0}) → Exchange W → Type 0
IsAnswered P m x =
    ((e : Error) × ((m x).0 ≡ err e) × (is_panic e ≡ true))
    ⊎ ((n : ℕ) × (status_of (m x).1 ≡ some n) × P n)

abbrev Own : ℕ → Type 0
Own n = is_own n ≡ true

ended :
    {A : Type 0} (P : ℕ → Type 0) (r : Result A) (s : Option ℕ)
    → Ends P (λ _. true) r s
    → ((e : Error) × (r ≡ err e) × (is_panic e ≡ true)) ⊎ ((n : ℕ) × (s ≡ some n) × P n)
ended P (err e) s h = inl (e, refl, h)
ended P (ok a) (some n) h = inr (n, refl, h)
ended P (ok a) none h = absurd h

fresh : {W : Type 0} (P : ℕ → Type 0) (x : Exchange W) → x.out ≡ [] → Stands P false (status_of x)
unfolding received receive_all
fresh P x h = rw (status_of, h) tt

IsAnswered-weaken :
    {W : Type 0} (P Q : ℕ → Type 0) (m : Handler W (Unit {0})) (x : Exchange W)
    → ((n : ℕ) → P n → Q n)
    → IsAnswered P m x
    → IsAnswered Q m x
IsAnswered-weaken P Q m x f (inl panics) = inl panics
IsAnswered-weaken P Q m x f (inr (n, status, p)) = inr (n, status, f n p)

Answers-IsAnswered :
    {W : Type 0} (P : ℕ → Type 0) (m : Handler W (Unit {0})) (x : Exchange W)
    → Answers P false (λ _. true) m
    → x.out ≡ []
    → IsAnswered P m x
Answers-IsAnswered P m x km h = ended P (m x).0 (status_of (m x).1) (km.at x (fresh P x h))

module _ (env : Env) where
  open env use {World}

  abbrev AnsweredRoute : (ℕ → Type 0) → Route World → Type 0
  AnsweredRoute P r = (req : Request) → Answers P false (λ _. true) (r.handler req)

  member-IsAnswered :
      (P : ℕ → Type 0) (rs : List (Route World)) (r : Route World)
      → All (AnsweredRoute P) rs
      → Memᴰ r rs
      → {Q : ℕ → Type 0} → ((n : ℕ) → P n → Q n)
      → (req : Request) (x : Exchange World) → x.out ≡ []
      → IsAnswered Q (r.handler req) x
  member-IsAnswered P rs r all m {Q} f req x h =
      IsAnswered-weaken P Q (r.handler req) x f
        (Answers-IsAnswered P (r.handler req) x (all-mem (AnsweredRoute P) rs r all m req) h)

  management_routes-Answered : All (AnsweredRoute Own) (management_routes env)
  unfolding management_routes user_mgmt_routes authorization_routes ldap_configuration_mgmt_routes
  management_routes-Answered =
      let own : (n : ℕ) → is_own n ≡ true → Own n = λ n h. h in
      search (
        admin_only-Answers env own,
        authorized_user_only-Answers env own,
        add_local_user-Answers env own,
        delete_local_user-Answers env own,
        update_local_user-Answers env own,
        get_local_user-Answers env own,
        get_local_users-Answers env own,
        add_authorization-Answers env own,
        delete_authorization-Answers env own,
        get_authorization-Answers env own,
        list_authorizations-Answers env own,
        add_ldap_configuration-Answers env own,
        get_ldap_configuration-Answers env own,
        delete_ldap_configuration-Answers env own,
        update_ldap_configuration-Answers env own,
      )

  netmaster_routes-Answered :
      (config : Config) → All (AnsweredRoute (λ _. Unit {0})) (netmaster_routes env config)
  unfolding netmaster_routes
  netmaster_routes-Answered config =
      search (enforce_rbac-Answers env config {P = λ _. Unit {0}} (λ _. tt))

module _ (env : Env) (ldap_authenticate : String → String → Exec env.World (String × List String))
    (file_server : Request → Handler env.World (Unit {0})) (config : Config) where
  public_routes-Answered :
      All (AnsweredRoute env Own) (public_routes env ldap_authenticate file_server config)
  unfolding public_routes
  public_routes-Answered =
      let own : (n : ℕ) → is_own n ≡ true → Own n = λ n h. h in
      search (
        version_handler-Answers env own,
        health_check_handler-Answers env own,
        login_handler-Answers env ldap_authenticate own,
      )

  module _
      (router : List (Route env.World)
        → Request
        → Option (Route env.World × List (String × String)))
      (not_found : Request → Handler env.World (Unit {0}))
      (in_table : (req : Request) (r : Route env.World) (vars : List (String × String))
        → router (routes env ldap_authenticate file_server config) req ≡ some (r, vars)
        → Memᴰ r (routes env ldap_authenticate file_server config)) where
    -- If the router gives requests to routes of the table only, then a request that it gives to a
    -- route, other than the one for static files, is answered: its handler panics, or the client
    -- receives a status, which is one of the eight that the code names, unless the request is one
    -- that may be proxied to netmaster.
    pub serve_request-IsAnswered :
        (req : Request) (r : Route env.World) (vars : List (String × String))
        (x : Exchange env.World)
        → router (routes env ldap_authenticate file_server config) req ≡ some (r, vars)
        → x.out ≡ []
        → (r ≡ static_route env ldap_authenticate file_server config)
          ⊎ IsAnswered
              (λ n. Memᴰ r (netmaster_routes env config) ⊎ (is_own n ≡ true))
              (server env ldap_authenticate file_server config router not_found req)
              x
    unfolding serve_request routed
    serve_request-IsAnswered req r vars x found h =
        let req' = record req { vars = vars } in
        elim (table-cases env ldap_authenticate file_server config router not_found r
          (in_table req r vars found)) [
            | inl open_ ↦ inr (
                rw found (
                  member-IsAnswered env Own _ r public_routes-Answered open_ (λ n p. inr p) req' x
                    h))
            | inr (inl managed) ↦ inr (
                rw found (
                  member-IsAnswered env Own _ r (management_routes-Answered env) managed
                    (λ n p. inr p) req' x h))
            | inr (inr (inl netmaster)) ↦ inr (
                rw found (
                  member-IsAnswered env (λ _. Unit {0}) _ r (netmaster_routes-Answered env config)
                    netmaster (λ n _. inl netmaster) req' x h))
            | inr (inr (inr static)) ↦ inl static
          ]
