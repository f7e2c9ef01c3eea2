-- ===== src/Proxy/Routes/Closed.antt =====
-- Which requests get past the guards of the routes of proxy/proxy.go.
use mathlib.Core.List.{Memᴰ}
use mathlib.Core.List.Memᴰ
use auth_proxy.Prelude.{
  ◌≡◌, ◌⊎◌, inl, inr, refl, sym, subst, List, [], ◌∷◌, ◌++◌, Option, none, some, All,
}
use auth_proxy.Errors.{Result, ok, err}
use auth_proxy.Exec.{pure, continue}
use auth_proxy.Env.{Env, Request, Config}
use auth_proxy.Auth.Tokens.{Token}
use auth_proxy.Proxy.Exchange.{Exchange, Handler, emit}
use auth_proxy.Proxy.Responses.{enable_hsts, set_default_response_headers}
use auth_proxy.Proxy.Tokens.{validate_token}
use auth_proxy.Proxy.Guards.{admin_admitted, admin_only, user_admitted, authorized_user_only}
use auth_proxy.Proxy.Guards.Admission.{MayManage, admin_only-Guarded, authorized_user_only-Guarded}
use auth_proxy.Proxy.Rbac.{enforce_rbac, for_user}
use auth_proxy.Proxy.Routes.{
  Route, user_mgmt_routes, authorization_routes, ldap_configuration_mgmt_routes, netmaster_routes,
}

pub all-mem : {A : Type 0} (P : A → Type 0) (xs : List A) (x : A) → All P xs → Memᴰ x xs → P x
all-mem P [] x ps m = absurd (Memᴰ.not-nil m)
all-mem P (y ∷ ys) x (p, ps) m = elim (Memᴰ.cases_cons m) [
  | inl same ↦ subst P (sym same) p
  | inr later ↦ all-mem P ys x ps later
]

module _ (env : Env) where
  open env use {World}

  -- A request whose token is valid, or to which the handler does nothing but to validate the token, at
  -- once or after it has set the default headers.
  unfoldable pub IsClosed : (Request → Handler World (Unit {0})) → Request → Exchange World → Type 0
  IsClosed handler req x =
      (x' : Exchange World) × ((x' ≡ x) ⊎ (x' ≡ (set_default_response_headers x).1))
      × (((t : Token) × ((validate_token env req x').0 ≡ ok (some t)))
          ⊎ ((handler req x).1 ≡ (validate_token env req x').1))

  after_token :
      (r : Result (Option Token)) (f : Option Token → Handler World (Unit {0})) (y : Exchange World)
      → f none ≡ pure tt
      → ((t : Token) × (r ≡ ok (some t))) ⊎ ((continue r f y).1 ≡ y)
  after_token (ok (some t)) f y h = inl (t, refl)
  after_token (ok none) f y h = inr (rw h refl)
  after_token (err e) f y h = inr refl

  admin_only-IsClosed :
      (h : Request → Handler World (Unit {0})) (req : Request) (x : Exchange World)
      → IsClosed (admin_only env h) req x
  unfolding IsClosed admin_only admin_admitted
  admin_only-IsClosed h req x = (
    x,
    inl refl,
    after_token (validate_token env req x).0 (admin_admitted env h req) (validate_token env req x).1
        refl,
  )

  authorized_user_only-IsClosed :
      (h : Request → Handler World (Unit {0})) (req : Request) (x : Exchange World)
      → IsClosed (authorized_user_only env h) req x
  unfolding IsClosed authorized_user_only user_admitted
  authorized_user_only-IsClosed h req x = (
    x,
    inl refl,
    after_token (validate_token env req x).0 (user_admitted env h req) (validate_token env req x).1
        refl,
  )

  enforce_rbac-IsClosed :
      (config : Config) (req : Request) (x : Exchange World)
      → IsClosed (enforce_rbac env config) req x
  unfolding IsClosed enforce_rbac for_user set_default_response_headers emit enable_hsts
  enforce_rbac-IsClosed config req x =
      let y = (set_default_response_headers x).1 in
      (
        y,
        inr refl,
        after_token (validate_token env req y).0 (for_user env config req)
            (validate_token env req y).1 refl,
      )

  abbrev pub ClosedRoute : Route World → Type 0
  ClosedRoute r = (req : Request) (x : Exchange World) → IsClosed r.handler req x

  -- A request of a superuser or of the user in its path, or one to which the handler does exactly what a
  -- guard does for a handler that does nothing.
  unfoldable pub IsManaged :
      (Request → Handler World (Unit {0})) → Request → Exchange World → Type 0
  IsManaged handler req x =
      ((t : Token) × ((validate_token env req x).0 ≡ ok (some t))
        × MayManage env req t (validate_token env req x).1)
      ⊎ (handler req x ≡ admin_only env (λ _. pure tt) req x)
      ⊎ (handler req x ≡ authorized_user_only env (λ _. pure tt) req x)

  abbrev pub ManagedRoute : Route World → Type 0
  ManagedRoute r = (req : Request) (x : Exchange World) → IsManaged r.handler req x

  admin_only-IsManaged :
      (h : Request → Handler World (Unit {0})) (req : Request) (x : Exchange World)
      → IsManaged (admin_only env h) req x
  unfolding IsManaged
  admin_only-IsManaged h req x = elim (admin_only-Guarded env req x) [
    | inl (t, valid, superuser, _) ↦ inl (t, valid, inl superuser)
    | inr same ↦ inr (inl (same h (λ _. pure tt)))
  ]

  authorized_user_only-IsManaged :
      (h : Request → Handler World (Unit {0})) (req : Request) (x : Exchange World)
      → IsManaged (authorized_user_only env h) req x
  unfolding IsManaged
  authorized_user_only-IsManaged h req x = elim (authorized_user_only-Guarded env req x) [
    | inl (t, valid, may, _) ↦ inl (t, valid, may)
    | inr same ↦ inr (inr (same h (λ _. pure tt)))
  ]

  unfoldable pub management_routes : List (Route World)
  unfolding user_mgmt_routes authorization_routes ldap_configuration_mgmt_routes
  management_routes =
      user_mgmt_routes env ++ authorization_routes env ++ ldap_configuration_mgmt_routes env

  pub management_routes-Closed : All ClosedRoute management_routes
  unfolding management_routes user_mgmt_routes authorization_routes ldap_configuration_mgmt_routes
  management_routes-Closed = search (admin_only-IsClosed, authorized_user_only-IsClosed)

  pub management_routes-Managed : All ManagedRoute management_routes
  unfolding management_routes user_mgmt_routes authorization_routes ldap_configuration_mgmt_routes
  management_routes-Managed = search (admin_only-IsManaged, authorized_user_only-IsManaged)

  pub netmaster_routes-Closed : (config : Config) → All ClosedRoute (netmaster_routes env config)
  unfolding netmaster_routes
  netmaster_routes-Closed config = search enforce_rbac-IsClosed
