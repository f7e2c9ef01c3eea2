-- ===== src/Proxy/Guards/Admission.antt =====
-- Whom `adminOnly` and `authorizedUserOnly` let through to the handler.
use auth_proxy.Prelude.{
  Bool, true, false, ◌≡◌, refl, ◌⊎◌, inl, inr, Option, none, some, ◌==◌, Bool-cases,
}
use auth_proxy.Errors.{is_panic, Result, ok, err}
use auth_proxy.Exec.{continue}
use auth_proxy.Env.{Env, Request}
use auth_proxy.Auth.Tokens.{Token, username_claim_key, get_claim}
use auth_proxy.Auth.Policy.{is_superuser}
use auth_proxy.Proxy.Exchange.{Exchange, Handler, var, call}
use auth_proxy.Proxy.Tokens.{validate_token}
use auth_proxy.Proxy.Guards.{admin_admitted, admin_only, user_admitted, authorized_user_only}

module _ (env : Env) (req : Request) where
  abbrev Handlers : Type 0
  Handlers = Request → Handler env.World (Unit {0})

  -- Where the handler starts, after the token's roles were read.
  abbrev pub entered : Token → Exchange env.World → Exchange env.World
  entered t y = record y { world = (is_superuser env t y.world).1 }

  -- A guard that, for a token that `P` accepts, runs the handler; it refuses otherwise, and then
  -- what it does has nothing to do with the handler.
  abbrev pub Guarded :
      (Token → Exchange env.World → Type 0)
      → (Handlers → Handler env.World (Unit {0}))
      → Exchange env.World
      → Type 0
  Guarded P guard x =
      ((t : Token) × ((validate_token env req x).0 ≡ ok (some t))
        × P t (validate_token env req x).1
        × ((h : Handlers) → guard h x ≡ h req (entered t (validate_token env req x).1)))
      ⊎ ((h other : Handlers) → guard h x ≡ guard other x)

  abbrev pub IsSuperuser : Token → Exchange env.World → Type 0
  IsSuperuser t y = (is_superuser env t y.world).0 ≡ ok true

  admin_decided :
      (t : Token) (r : Result Bool) (y : Exchange env.World)
      → (is_superuser env t y.world).0 ≡ r
      → (((is_superuser env t y.world).0 ≡ ok true)
          × ((h : Handlers) → admin_admitted env h req (some t) y ≡ h req (entered t y)))
        ⊎ ((h other : Handlers)
            → admin_admitted env h req (some t) y ≡ admin_admitted env other req (some t) y)
  unfolding admin_admitted call
  admin_decided t (ok true) y eq = inl (eq, λ h. rw eq refl)
  admin_decided t (ok false) y eq = inr (λ h other. rw eq refl)
  admin_decided t (err e) y eq = inr (λ h other. elim (Bool-cases (is_panic e)) [
    | inl is ↦ rw (eq, is) refl
    | inr other ↦ rw (eq, other) refl
  ])

  -- `Guarded` for what follows the validation of the token.
  abbrev Continues :
      (Token → Exchange env.World → Type 0)
      → (Handlers → Option Token → Handler env.World (Unit {0}))
      → Result (Option Token)
      → Exchange env.World
      → Type 0
  Continues P admitted r y =
      ((t : Token) × (r ≡ ok (some t))
        × P t y
        × ((h : Handlers) → continue r (admitted h) y ≡ h req (entered t y)))
      ⊎ ((h other : Handlers) → continue r (admitted h) y ≡ continue r (admitted other) y)

  admin_validated :
      (r : Result (Option Token)) (y : Exchange env.World)
      → Continues IsSuperuser (λ h. admin_admitted env h req) r y
  unfolding admin_admitted
  admin_validated (ok (some t)) y = elim (admin_decided t (is_superuser env t y.world).0 y refl) [
    | inl (p, q) ↦ inl (t, refl, p, q)
    | inr q ↦ inr q
  ]
  admin_validated (ok none) y = inr (λ h other. refl)
  admin_validated (err e) y = inr (λ h other. refl)

  -- `adminOnly` runs the handler exactly as it is, after the validation of the token, if the token is
  -- valid and a superuser's; otherwise all that it does is the same for every handler.
  pub admin_only-Guarded :
      (x : Exchange env.World) → Guarded IsSuperuser (λ h. admin_only env h req) x
  unfolding admin_only
  admin_only-Guarded x = admin_validated (validate_token env req x).0 (validate_token env req x).1

  abbrev names_user : Token → Bool
  names_user t = var req.vars "username" == get_claim t username_claim_key

  -- A superuser, or the user whom the path of the request names.
  abbrev pub MayManage : Token → Exchange env.World → Type 0
  MayManage t y =
      (IsSuperuser t y) ⊎ ((var req.vars "username" == get_claim t username_claim_key) ≡ true)

  user_decided :
      (t : Token) (r : Result Bool) (y : Exchange env.World)
      → (is_superuser env t y.world).0 ≡ r
      → (MayManage t y
          × ((h : Handlers) → user_admitted env h req (some t) y ≡ h req (entered t y)))
        ⊎ ((h other : Handlers)
            → user_admitted env h req (some t) y ≡ user_admitted env other req (some t) y)
  unfolding user_admitted call
  user_decided t (ok true) y eq = inl (inl eq, λ h. rw eq refl)
  user_decided t (ok false) y eq = elim (Bool-cases (names_user t)) [
    | inl is ↦ inl (inr is, λ h. rw (eq, is) refl)
    | inr not ↦ inr (λ h other. rw (eq, not) refl)
  ]
  user_decided t (err e) y eq = elim (Bool-cases (is_panic e)) [
    | inl panics ↦ inr (λ h other. rw (eq, panics) refl)
    | inr returns ↦ elim (Bool-cases (names_user t)) [
      | inl is ↦ inl (inr is, λ h. rw (eq, returns, is) refl)
      | inr not ↦ inr (λ h other. rw (eq, returns, not) refl)
    ]
  ]

  user_validated :
      (r : Result (Option Token)) (y : Exchange env.World)
      → Continues MayManage (λ h. user_admitted env h req) r y
  unfolding user_admitted
  user_validated (ok (some t)) y = elim (user_decided t (is_superuser env t y.world).0 y refl) [
    | inl (p, q) ↦ inl (t, refl, p, q)
    | inr q ↦ inr q
  ]
  user_validated (ok none) y = inr (λ h other. refl)
  user_validated (err e) y = inr (λ h other. refl)

  -- `authorizedUserOnly` runs the handler exactly as it is, after the validation of the token, if the
  -- token is valid and a superuser's or the named user's; otherwise all that it does is the same for
  -- every handler.
  pub authorized_user_only-Guarded :
      (x : Exchange env.World) → Guarded MayManage (λ h. authorized_user_only env h req) x
  unfolding authorized_user_only
  authorized_user_only-Guarded x =
      user_validated (validate_token env req x).0 (validate_token env req x).1
