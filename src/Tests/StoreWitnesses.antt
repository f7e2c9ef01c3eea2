-- ===== src/Tests/StoreWitnesses.antt =====
-- The theorems about users and authorizations at the deployment of the tests.
use auth_proxy.Prelude.{
  true, false, ◌≡◌, ◌≢◌, refl, ◌⊎◌, String, append, [], ◌∷◌, none, some, ◌==◌, ◌&&◌, eq_refl, subst,
  ap,
}
use auth_proxy.Errors.{is_key_not_found, Error, ok, err}
use auth_proxy.Text.{split, has_prefix}
use auth_proxy.Types.{LocalUser, authz_key, belongs_to_built_in_admin}
use auth_proxy.Driver.{get_state_driver, read_state, read_all_state, unmarshal_all}
use auth_proxy.Crypto.{gen_password_hash}
use auth_proxy.Db.Keys.{local_user_key}
use auth_proxy.Db.Authorizations.{
  clear_matching, clear_authorization, get_authorization as read_authorization,
  delete_authorization as remove_authorization, read_authorizations, delete_by_principal,
  list_by_claim, list_by_principal, list_by_claim_and_principal, list_authorizations,
}
use auth_proxy.Db.Authorizations.Listing.{list_by-select, then_select}
use auth_proxy.Db.Authorizations.Clearing.{
  Gone, Spared, delete_by_principal-Gone, delete_by_principal-Spared,
}
use auth_proxy.Db.LocalUsers.{store_user, add_local_user, delete_local_user}
use auth_proxy.Db.LocalUsers.Adding.{
  HashesWell, Added, add_local_user-keeps_taken, add_local_user-stores,
}
use auth_proxy.Db.LocalUsers.Removing.{delete_local_user-removes}
use auth_proxy.Auth.Local.{authenticate_locally}
use auth_proxy.Auth.Local.AfterAdding.{authenticate-add_local_user}
use auth_proxy.Auth.Authorizations.{delete_authorization}
use auth_proxy.Auth.Authorizations.Deleting.{
  delete_authorization-keeps_built_in, delete_authorization-removes,
}
use auth_proxy.Tests.Store.{Entries, find, values_below, without, memory, memory-IsStore}
use auth_proxy.Tests.Deployment.{
  authorization_codec, alice, deployment, entries, stored_authorizations,
}

-- The store once `alice` was added.
abbrev pub with_alice : Entries
with_alice = (local_user_key "alice", "hash of wonderland") ∷ entries

alice-found : find with_alice (local_user_key "alice") ≡ some "hash of wonderland"
unfolding find
alice-found = rw (eq_refl (local_user_key "alice")) refl

add_local_user-keeps_taken_example :
    ((u : LocalUser) → (add_local_user deployment alice with_alice).0 ≢ ok u)
    × ((j : String) → find (add_local_user deployment alice with_alice).1 j ≡ find with_alice j)
add_local_user-keeps_taken_example =
    add_local_user-keeps_taken deployment memory refl find memory-IsStore alice with_alice
      "hash of wonderland" alice-found

hash_fits :
    (p h : String) (w w' : Entries)
    → deployment.generate_from_password p w ≡ (ok h, w')
    → (h == append "hash of " p) ≡ true
hash_fits p h w w' e =
    let same : append "hash of " p ≡ h = cc e in
    subst (λ x. (x == append "hash of " p) ≡ true) same (eq_refl (append "hash of " p))

bcrypt-HashesWell : HashesWell deployment memory refl find memory-IsStore
bcrypt-HashesWell = record { fits = hash_fits; keeps = λ p w j. refl }

alice-added :
    add_local_user deployment alice entries ≡ (ok (record alice { password = "" }), with_alice)
unfolding add_local_user get_state_driver find local_user_key store_user is_key_not_found
    gen_password_hash
alice-added = refl

add_local_user-stores_example :
    Added deployment memory refl find memory-IsStore alice entries
      (add_local_user deployment alice entries).1
    × ((j : String)
        → (local_user_key "alice" == j) ≡ false
        → find (add_local_user deployment alice entries).1 j ≡ find entries j)
add_local_user-stores_example =
    add_local_user-stores deployment memory refl find memory-IsStore bcrypt-HashesWell alice
      (record alice { password = "" }) entries (ap (λ x. x.0) alice-added)

authenticate-add_local_user_example :
    ((authenticate_locally deployment "alice" "wonderland" with_alice).0 ≡ ok ("alice" ∷ []))
    ⊎ ((e : Error) × ((memory.read (local_user_key "alice") with_alice).0 ≡ err e))
authenticate-add_local_user_example =
    authenticate-add_local_user deployment memory refl find memory-IsStore bcrypt-HashesWell alice
      (record alice { password = "" }) entries with_alice (λ h v e. cc) refl alice-added

with_alice-read :
    read_authorizations deployment memory with_alice ≡ (ok stored_authorizations, with_alice)
unfolding read_authorizations read_all_state unmarshal_all values_below has_prefix
    authorization_codec split local_user_key
with_alice-read = refl

-- The store once the user was removed with the one authorization.
abbrev without_alice : Entries
without_alice =
    ("auth_proxy/authorizations/u2", "i2;u2;root;;role;admin")
    ∷ ("auth_proxy/authorizations/u3", "i3;u3;admin;local;role;admin")
    ∷ []

alice-deleted : delete_local_user deployment "alice" with_alice ≡ (ok tt, without_alice)
unfolding delete_local_user get_state_driver find local_user_key delete_by_principal
    read_authorizations read_all_state unmarshal_all values_below has_prefix authorization_codec
    split clear_matching clear_authorization without
alice-deleted = refl

delete_local_user-removes_example :
    (find without_alice (local_user_key "alice") ≡ none)
    × Gone find (λ a. a.principal_name == "alice") stored_authorizations without_alice
delete_local_user-removes_example =
    delete_local_user-removes deployment memory find refl memory-IsStore "alice"
      stored_authorizations with_alice with_alice without_alice with_alice-read alice-deleted

abbrev still_with_alice : Entries
still_with_alice = (local_user_key "alice", "hash of wonderland") ∷ without_alice

authorizations-deleted :
    delete_by_principal deployment "alice" with_alice ≡ (ok tt, still_with_alice)
unfolding get_state_driver local_user_key delete_by_principal read_authorizations read_all_state
    unmarshal_all values_below has_prefix authorization_codec split clear_matching
    clear_authorization without
authorizations-deleted = refl

delete_by_principal-Gone_example :
    Gone find (λ a. a.principal_name == "alice") stored_authorizations still_with_alice
delete_by_principal-Gone_example =
    delete_by_principal-Gone deployment memory find refl memory-IsStore "alice"
      stored_authorizations with_alice with_alice still_with_alice with_alice-read
      authorizations-deleted

u2-Spared : Spared (λ a. a.principal_name == "alice") stored_authorizations (authz_key "u2")
unfolding authz_key
u2-Spared = (λ h. refl, (λ h. cc, (λ h. cc, tt)))

delete_by_principal-Spared_example :
    find (delete_by_principal deployment "alice" with_alice).1 (authz_key "u2")
    ≡ find with_alice (authz_key "u2")
delete_by_principal-Spared_example =
    delete_by_principal-Spared deployment memory find refl memory-IsStore "alice"
      stored_authorizations with_alice with_alice (authz_key "u2") with_alice-read u2-Spared

list_by-select_example :
    (list_by_claim deployment "role" entries
      ≡ then_select (λ a. a.claim_key == "role") (list_authorizations deployment) entries)
    × (list_by_principal deployment "root" entries
        ≡ then_select (λ a. a.principal_name == "root") (list_authorizations deployment) entries)
    × (list_by_claim_and_principal deployment "role" "root" entries
        ≡ then_select
            (λ a. a.claim_key == "role" && a.principal_name == "root")
            (list_authorizations deployment)
            entries)
list_by-select_example = list_by-select deployment "role" "root" entries

delete_authorization-keeps_built_in_example :
    ((delete_authorization deployment "u3" entries).0 ≢ ok tt)
    × ((j : String) → find (delete_authorization deployment "u3" entries).1 j ≡ find entries j)
unfolding find authz_key authorization_codec split belongs_to_built_in_admin
delete_authorization-keeps_built_in_example =
    delete_authorization-keeps_built_in deployment memory find refl memory-IsStore "u3"
      "i3;u3;admin;local;role;admin"
      (record {
        id = "i3";
        uuid = "u3";
        principal_name = "admin";
        local = true;
        claim_key = "role";
        claim_value = "admin";
      })
      entries refl refl refl

u1-deleted : (delete_authorization deployment "u1" entries).0 ≡ ok tt
unfolding delete_authorization read_authorization remove_authorization get_state_driver read_state
    find authz_key authorization_codec split clear_authorization
u1-deleted = refl

delete_authorization-removes_example :
    (find (delete_authorization deployment "u1" entries).1 (authz_key "u1") ≡ none)
    × ((j : String)
        → (authz_key "u1" == j) ≡ false
        → find (delete_authorization deployment "u1" entries).1 j ≡ find entries j)
delete_authorization-removes_example =
    delete_authorization-removes deployment memory find refl memory-IsStore "u1" entries u1-deleted
