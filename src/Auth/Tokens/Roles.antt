-- ===== src/Auth/Tokens/Roles.antt =====
-- The role claim of a token only gains privileges.
use auth_proxy.Prelude.{
  ◌≤◌, ◌≡◌, refl, String, Option, none, some, ltb, arith, Bool-cases, inl, inr, subst,
}
use auth_proxy.Errors.{ok, Result-cases}
use auth_proxy.Types.{RoleType, role_claim_key, role, role_string, admin, ops}
use auth_proxy.Env.{ClaimValue, text, number, other}
use auth_proxy.Auth.Tokens.{Token, lookup_claim, add_claim, with_role}
use auth_proxy.Auth.Tokens.Principals.{lookup_claim-add_claim}

-- The role that a token's claim names.
pub record HasRole (t : Token) (r : RoleType) : Type 0 where
  pub name : String
  pub claimed : lookup_claim t.claims role_claim_key ≡ some (text name)
  pub named : role name ≡ ok r

-- A granted role that is one of the two.
pub data IsNamed : RoleType → Type 0 where
  is_admin : IsNamed admin
  is_ops : IsNamed ops

pub role-role_string : (r : RoleType) → IsNamed r → role (role_string r) ≡ ok r
unfolding role role_string
role-role_string r is_admin = refl
role-role_string r is_ops = refl

added :
    (t : Token) (r : RoleType)
    → IsNamed r
    → HasRole (add_claim t role_claim_key (text (role_string r))) r
added t r named = record {
  name = role_string r;
  claimed = lookup_claim-add_claim t role_claim_key _;
  named = role-role_string r named;
}

-- A role that the token names, at least as privileged as `granted` and as the roles it named before.
abbrev pub Strongest : Token → Token → RoleType → Type 0
Strongest t t' granted =
    (r : RoleType) × HasRole t' r × (r ≤ granted) × ((old : RoleType) → HasRole t old → r ≤ old)

only_role :
    (t : Token) (s : String) (r old : RoleType)
    → lookup_claim t.claims role_claim_key ≡ some (text s)
    → role s ≡ ok r
    → HasRole t old
    → old ≡ r
only_role t s r old found named has = cc (found, named, has.claimed, has.named)

kept_or_raised :
    (t t' : Token) (granted available : RoleType) (s : String)
    → IsNamed granted
    → lookup_claim t.claims role_claim_key ≡ some (text s)
    → role s ≡ ok available
    → with_role t granted (some (text s)) ≡ ok t'
    → Strongest t t' granted
unfolding with_role
kept_or_raised t t' granted available s named found is h =
    elim (Bool-cases (ltb granted available)) [
      | inl less ↦
          let e : add_claim t role_claim_key (text (role_string granted)) ≡ t' =
            cc (rw (with_role, is, less) at h) in
          (
            granted,
            subst (λ x. HasRole x granted) e (added t granted named),
            ground arith,
            λ old has. ground (arith, only_role t s available old found is has),
          )
      | inr not_less ↦
          let e : t ≡ t' = cc (rw (with_role, is, not_less) at h) in
          (
            available,
            subst (λ x. HasRole x available) e (record { name = s; claimed = found; named = is }),
            ground arith,
            λ old has. ground (arith, only_role t s available old found is has),
          )
    ]

-- The role claim that `AddRoleClaim` leaves in a token, when it is granted one of the two roles and
-- succeeds, is as privileged as the granted role and as the role that the token named before, or more.
pub with_role-Strongest :
    (t t' : Token) (granted : RoleType)
    → IsNamed granted
    → with_role t granted (lookup_claim t.claims role_claim_key) ≡ ok t'
    → Strongest t t' granted
unfolding with_role
with_role-Strongest t t' granted named h = cases _ refl h
  where
    cases :
        (o : Option ClaimValue)
        → lookup_claim t.claims role_claim_key ≡ o
        → with_role t granted o ≡ ok t'
        → Strongest t t' granted
    cases none found h =
        let e : add_claim t role_claim_key (text (role_string granted)) ≡ t' = cc h in
        (
          granted,
          subst (λ x. HasRole x granted) e (added t granted named),
          ground arith,
          λ old has. cc (found, has.claimed),
        )
    cases (some (text s)) found h = elim (Result-cases (role s)) [
      | inl (available, is) ↦ kept_or_raised t t' granted available s named found is h
      | inr (e, bad) ↦ cc (rw (with_role, bad) at h)
    ]
    cases (some (number n)) found h = cc
    cases (some other) found h = cc
