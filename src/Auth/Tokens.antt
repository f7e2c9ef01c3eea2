-- ===== src/Auth/Tokens.antt =====
-- auth/token.go: tokens and their claims.
pub mod Principals
pub mod Roles
use auth_proxy.Prelude.{String, append, List, [], ◌∷◌, Option, none, some, ltb, ◌==◌, if◌then◌else◌}
use auth_proxy.Errors.{new_error, panic, internal, error_text, Result, ok, err}
use auth_proxy.Text.{join, split}
use auth_proxy.Types.{Authorization, RoleType, role_claim_key, role, role_string}
use auth_proxy.Env.{ClaimValue, text, Claims}

abbrev pub principals_claim_key : String
principals_claim_key = "principals"

abbrev pub username_claim_key : String
username_claim_key = "username"

-- `Token`: its claims are all that the program reads of it.
pub record Token : Type 0 where
  pub claims : Claims

-- A map's entry.
unfoldable pub lookup_claim : Claims → String → Option ClaimValue
lookup_claim [] key = none
lookup_claim ((k, v) ∷ cs) key = if k == key then some v else lookup_claim cs key

set_claim : Claims → String → ClaimValue → Claims
set_claim [] key value = (key, value) ∷ []
set_claim ((k, v) ∷ cs) key value =
    let rest = set_claim cs key value in if k == key then (k, value) ∷ cs else (k, v) ∷ rest

-- `AddClaim`
unfoldable pub add_claim : Token → String → ClaimValue → Token
unfolding set_claim
add_claim t key value = record { claims = set_claim t.claims key value }

text_or_empty : Option ClaimValue → String
text_or_empty (some (text s)) = s
text_or_empty _ = ""

-- `GetClaim`
unfoldable pub get_claim : Token → String → String
unfolding text_or_empty lookup_claim
get_claim t key = text_or_empty (lookup_claim t.claims key)

-- `AddPrincipalsClaim`
unfoldable pub add_principals_claim : Token → List String → Token
unfolding add_claim
add_principals_claim t principals = add_claim t principals_claim_key (text (join principals ";"))

principals_of : Option ClaimValue → Result (List String)
principals_of none = err (new_error internal "Illegal token, no principals claim present")
principals_of (some (text s)) = ok (split s b';')
principals_of (some _) = err (new_error internal "Illegal token, no principals present")

-- `getPrincipals` of auth/policy.go
unfoldable pub get_principals : Token → Result (List String)
unfolding principals_of lookup_claim
get_principals t = principals_of (lookup_claim t.claims principals_claim_key)

-- The end of `AddRoleClaim`: the claim is replaced only by a role with more privileges.
unfoldable pub with_role : Token → RoleType → Option ClaimValue → Result Token
unfolding add_claim role_string
with_role t granted none = ok (add_claim t role_claim_key (text (role_string granted)))
with_role t granted (some (text s)) = elim (role s) [
  | ok available ↦
      ok (
        if ltb granted available
        then add_claim t role_claim_key (text (role_string granted))
        else t)
  | err e ↦ err (new_error internal (append "malformed token, error:" (error_text e)))
]
with_role t granted (some _) = err (panic "interface conversion")

-- An authorization with an invalid role is skipped, and only the first one is read.
unfoldable pub with_authorizations : Token → List Authorization → Result Token
unfolding lookup_claim
with_authorizations t [] = ok t
with_authorizations t (a ∷ _) = elim (role a.claim_value) [
  | ok granted ↦ with_role t granted (lookup_claim t.claims role_claim_key)
  | err _ ↦ ok t
]
