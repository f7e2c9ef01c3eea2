-- ===== src/Auth/Tokens/Principals.antt =====
-- The principals that a token was given are the ones that the policies read from it.
use auth_proxy.Prelude.{
  true, ◌≡◌, refl, ap, String, List, [], ◌∷◌, some, All, ◌==◌, eq_refl, Bool-cases, inl, inr,
}
use auth_proxy.Errors.{ok}
use auth_proxy.Text.{join}
use auth_proxy.Text.Splitting.{is_free, split-join}
use auth_proxy.Env.{ClaimValue, text, Claims}
use auth_proxy.Auth.Tokens.{
  Token, principals_claim_key, lookup_claim, set_claim, add_claim, add_principals_claim,
  principals_of, get_principals,
}

lookup_claim-set_claim :
    (cs : Claims) (key : String) (v : ClaimValue) → lookup_claim (set_claim cs key v) key ≡ some v
unfolding lookup_claim set_claim
lookup_claim-set_claim [] key v = rw (eq_refl key) refl
lookup_claim-set_claim ((k, u) ∷ cs) key v = elim (Bool-cases (k == key)) [
  | inl same ↦ rw same (rw same refl)
  | inr other ↦ rw other (rw other (lookup_claim-set_claim cs key v))
]

-- What a claim was set to is what is read under its key.
pub lookup_claim-add_claim :
    (t : Token) (key : String) (v : ClaimValue)
    → lookup_claim (add_claim t key v).claims key ≡ some v
unfolding add_claim
lookup_claim-add_claim t key v = lookup_claim-set_claim t.claims key v

-- The policies read from a token exactly the principals that were put into it, if there is one and
-- no name contains ";".
pub get_principals-add_principals_claim :
    (t : Token) (p : String) (ps : List String)
    → All (λ q. is_free b';' q ≡ true) (p ∷ ps)
    → get_principals (add_principals_claim t (p ∷ ps)) ≡ ok (p ∷ ps)
unfolding get_principals add_principals_claim principals_of
get_principals-add_principals_claim t p ps free =
    rw (lookup_claim-add_claim t principals_claim_key (text (join (p ∷ ps) ";")))
      (ap ok (split-join p ps free))
