-- ===== src/Db/Authorizations/Listing.antt =====
-- The four listing functions read the same list.
use auth_proxy.Prelude.{
  Bool, true, ◌≡◌, refl, ◌&&◌, String, List, [], ◌∷◌, select, ◌==◌, Bool-cases, inl, inr,
}
use auth_proxy.Errors.{is_key_not_found, Result, ok, err}
use auth_proxy.Exec.{Exec, pure, attempt, continue, ◌>>=◌}
use auth_proxy.Types.{Authorization}
use auth_proxy.Driver.{StateDriver, get_state_driver}
use auth_proxy.Env.{Env}
use auth_proxy.Db.Authorizations.{
  listed, read_authorizations, list_authorizations, list_by_principal, list_by_claim,
  list_by_claim_and_principal,
}

select-all : (auths : List Authorization) → select (λ a. true) auths ≡ auths
unfolding select
select-all [] = refl
select-all (a ∷ auths) = rw (select-all auths) refl

abbrev pub then_select :
    {W : Type 0}
    → (Authorization → Bool)
    → Exec W (List Authorization)
    → Exec W (List Authorization)
then_select wanted m = m >>= λ auths. pure (select wanted auths)

-- What is listed, of a read's result, is selected from what is listed of all.
listed-select :
    {W : Type 0} (wanted : Authorization → Bool) (r : Result (List Authorization)) (w : W)
    → listed wanted r w ≡ then_select wanted (listed (λ a. true) r) w
unfolding select
listed-select wanted (ok auths) w = rw (select-all auths) refl
listed-select wanted (err e) w = elim (Bool-cases (is_key_not_found e)) [
  | inl missing ↦ rw missing refl
  | inr other ↦ rw other refl
]

module _ (env : Env) where
  -- Reading all the authorizations and keeping some.
  abbrev listing : (Authorization → Bool) → Exec env.World (List Authorization)
  listing wanted = do
    sd ← get_state_driver env.state_driver
    r ← attempt (read_authorizations env sd)
    listed wanted r

  listing-select :
      (wanted : Authorization → Bool) (w : env.World)
      → listing wanted w ≡ then_select wanted (listing (λ a. true)) w
  listing-select wanted w =
      from (get_state_driver env.state_driver w).0 (get_state_driver env.state_driver w).1
    where
      from :
          (r : Result (StateDriver env.World)) (w : env.World)
          → continue r (λ sd. attempt (read_authorizations env sd) >>= listed wanted) w
            ≡ then_select wanted
                (continue r (λ sd. attempt (read_authorizations env sd) >>= listed (λ a. true)))
                w
      from (ok sd) w =
          listed-select wanted (read_authorizations env sd w).0 (read_authorizations env sd w).1
      from (err e) w = refl

  -- The listings by claim, by principal and by both return what their conditions select from
  -- the listing of all, in its order, with the same errors and the same effects.
  pub list_by-select :
      (claim principal : String) (w : env.World)
      → (list_by_claim env claim w
          ≡ then_select (λ a. a.claim_key == claim) (list_authorizations env) w)
        × (list_by_principal env principal w
            ≡ then_select (λ a. a.principal_name == principal) (list_authorizations env) w)
        × (list_by_claim_and_principal env claim principal w
            ≡ then_select
                (λ a. a.claim_key == claim && a.principal_name == principal)
                (list_authorizations env)
                w)
  unfolding list_by_claim list_by_principal list_by_claim_and_principal list_authorizations
  list_by-select claim principal w = (listing-select _ w, listing-select _ w, listing-select _ w)
