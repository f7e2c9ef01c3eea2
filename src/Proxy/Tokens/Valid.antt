-- ===== src/Proxy/Tokens/Valid.antt =====
-- What `validateToken` has checked of a token that it returns.
use auth_proxy.Prelude.{ℕ, refl, ◌∙◌, true, false, ◌≡◌, String, List, Option, none, some}
use auth_proxy.Errors.{is_key_not_found, Result, ok, err}
use auth_proxy.Exec.Yields.{Yields, Yields-pure, Yields-if, Yields-bind, Yields-known}
use auth_proxy.Text.{is_empty}
use auth_proxy.Text.Patterns.{matches_username}
use auth_proxy.Types.{LocalUser}
use auth_proxy.Env.{Env, Request}
use auth_proxy.Db.LocalUsers.{get_local_user}
use auth_proxy.Auth.Tokens.{Token, username_claim_key, get_claim}
use auth_proxy.Auth.Issuing.{parse_token}
use auth_proxy.Proxy.Exchange.{Exchange, header_values, first_value, call}
use auth_proxy.Proxy.Exchange.Settled.{call-result}
use auth_proxy.Proxy.Responses.{auth_error, server_error}
use auth_proxy.Proxy.Tokens.{refuse, check_user, check_token, parsed, with_header, validate_token}

-- A condition on the token, if there is one.
abbrev OnlyIf : (Token → Type 0) → Option Token → Type 0
OnlyIf P none = Unit
OnlyIf P (some t) = P t

-- A lookup of the user that does not speak against the token: the user is enabled, or the store failed
-- for another reason than a missing key.
abbrev pub Tolerated : Result LocalUser → Type 0
Tolerated (ok user) = user.disable ≡ false
Tolerated (err e) = is_key_not_found e ≡ false

abbrev pub name_of : Token → String
name_of t = get_claim t username_claim_key

-- A token that names a user; a name of the form of a local user's was looked up.
pub record NamesUser (env : Env) (t : Token) : Type 0 where
  pub named : is_empty (name_of t) ≡ false
  pub looked_up :
      matches_username (name_of t) ≡ true
      → (w : env.World) × (r : Result LocalUser) × ((get_local_user env (name_of t) w).0 ≡ r)
        × Tolerated r

-- A token that was parsed from the request's header, and names a user.
pub record Valid (env : Env) (req : Request) (t : Token) : Type 0 where
  pub values : List String
  pub present : header_values req.header "X-Auth-Token" ≡ some values
  pub not_empty : is_empty (first_value values) ≡ false
  pub world : env.World
  pub signed : (parse_token env (first_value values) world).0 ≡ ok t
  pub names_user : NamesUser env t

module _ (env : Env) {P : Token → Type 0} where
  refuse-Yields : (n : ℕ) (msg : String) → Yields (OnlyIf P) (refuse env n msg)
  unfolding refuse
  refuse-Yields n msg = Yields-bind (auth_error env n msg) _ (λ _. Yields-pure none tt)

  check_user-Yields :
      (t : Token) (r : Result LocalUser)
      → (Tolerated r → P t)
      → Yields (OnlyIf P) (check_user env t r)
  unfolding check_user
  check_user-Yields t (ok user) p =
      Yields-if user.disable _ _ (λ _. refuse-Yields _ _)
        (λ enabled. Yields-pure (some t) (p enabled))
  check_user-Yields t (err e) p =
      Yields-if (is_key_not_found e) _ _ (λ _. refuse-Yields _ _)
        (λ failed. Yields-bind (server_error env e) _ (λ _. Yields-pure (some t) (p failed)))

  check_token-Yields : (t : Token) → (NamesUser env t → P t) → Yields (OnlyIf P) (check_token env t)
  unfolding check_token
  check_token-Yields t p =
      Yields-if (is_empty (name_of t)) _ _ (λ _. refuse-Yields _ _)
        (λ named.
          Yields-if (matches_username (name_of t)) _ _
            (λ local. Yields-known (call (get_local_user env (name_of t))) _ (λ x r h.
              check_user-Yields t r (λ ok_user. p (record {
                named = named;
                looked_up =
                    λ _. (x.world, r, call-result (get_local_user env (name_of t)) x r h, ok_user);
              }))))
            (λ foreign. Yields-pure (some t) (p (record { named = named; looked_up = λ is. cc }))))

  parsed-Yields :
      (r : Result Token)
      → ((t : Token) → r ≡ ok t → NamesUser env t → P t)
      → Yields (OnlyIf P) (parsed env r)
  unfolding parsed
  parsed-Yields (ok t) p = check_token-Yields t (p t refl)
  parsed-Yields (err e) p = refuse-Yields _ _

module _ (env : Env) (req : Request) where
  with_header-Yields :
      (o : Option (List String))
      → header_values req.header "X-Auth-Token" ≡ o
      → Yields (OnlyIf (Valid env req)) (with_header env o)
  unfolding with_header
  with_header-Yields none h = refuse-Yields env _ _
  with_header-Yields (some values) present =
      Yields-if (is_empty (first_value values)) _ _ (λ _. refuse-Yields env _ _)
        (λ not_empty. Yields-known (call (parse_token env (first_value values))) _ (λ x r h.
          parsed-Yields env r (λ t is names. record {
            values = values;
            present = present;
            not_empty = not_empty;
            world = x.world;
            signed = call-result (parse_token env (first_value values)) x r h ∙ is;
            names_user = names;
          })))

  -- A token that `validateToken` returns was parsed by `ParseToken` from a header "X-Auth-Token" that
  -- is not empty, and names a user; if the name has the form of a local user's,
  -- the user was found and is enabled, or the store failed for another reason than a missing key.
  pub validate_token-Valid :
      (x : Exchange env.World) (t : Token)
      → (validate_token env req x).0 ≡ ok (some t)
      → Valid env req t
  unfolding validate_token
  validate_token-Valid x t h = (with_header-Yields _ refl).at x (some t) h
