-- ===== src/State/Etcd/Client.antt =====
-- What etcd documents of its client, and the calls that leave the store's content as it is.
use auth_proxy.Prelude.{
  ℕ, zero, suc, Bool, true, false, ◌≡◌, refl, String, append, Option, none, some, ◌==◌, Bool-cases,
  inl, inr,
}
use auth_proxy.Errors.{Error, is_key_not_found, Result, ok, err}
use auth_proxy.Text.{has_prefix}
use auth_proxy.Exec.Keeps.{Keeps, keeping}
use auth_proxy.State.Etcd.{
  Node, KeysApi, is_unavailable, pause, pause_if_unavailable, get_after, retried_get,
}

-- What etcd documents of its client. `path` is the place in etcd's tree that a key names once it was
-- cleaned, so that several keys may name one place, and `view` the content by place, where a directory
-- has an empty value. A call that succeeds does what it says, one that fails as missing found nothing
-- at the place, and no error is one of this program's own. To set a value makes the directories above
-- it; else no call touches another place.
pub record IsClient {W : Type 0} (api : KeysApi W) (path : String → String)
    (view : W → String → Option String) : Type 0 where
  pub get_ok :
      (k : String) (node : Node) (w : W)
      → (api.get false k w).0 ≡ ok node
      → view w (path k) ≡ some node.value
  pub get_missing :
      (k : String) (e : Error) (w : W)
      → (api.get false k w).0 ≡ err e
      → api.is_missing e ≡ true
      → view w (path k) ≡ none
  pub get_keeps :
      (all : Bool) (k : String) (w : W) (j : String) → view (api.get all k w).1 j ≡ view w j
  pub get_error :
      (all : Bool) (k : String) (e : Error) (w : W)
      → (api.get all k w).0 ≡ err e
      → is_key_not_found e ≡ false
  pub set_ok :
      (k v : String) (w : W) → (api.set k v w).0 ≡ ok tt → view (api.set k v w).1 (path k) ≡ some v
  pub set_keeps :
      (k v : String) (w : W) (j : String)
      → (path k == j) ≡ false
      → has_prefix (path k) (append j "/") ≡ false
      → view (api.set k v w).1 j ≡ view w j
  pub delete_ok :
      (k : String) (w : W) → (api.delete k w).0 ≡ ok tt → view (api.delete k w).1 (path k) ≡ none
  pub delete_missing :
      (k : String) (e : Error) (w : W)
      → (api.delete k w).0 ≡ err e
      → api.is_missing e ≡ true
      → view (api.delete k w).1 (path k) ≡ none
  pub delete_keeps :
      (k : String) (w : W) (j : String)
      → (path k == j) ≡ false
      → view (api.delete k w).1 j ≡ view w j
  pub sleep_keeps : (w : W) (j : String) → view (api.sleep w) j ≡ view w j

module _ {W : Type 0} (api : KeysApi W) (path : String → String) (view : W → String → Option String)
    (client : IsClient api path view) where
  pub pause_if-keeps :
      (e : Error) (w : W) (j : String) → view (pause_if_unavailable api e w).1 j ≡ view w j
  pause_if-keeps e w j = elim (Bool-cases (is_unavailable api e)) [
    | inl is ↦ rw is (client.sleep_keeps w j)
    | inr other ↦ rw other refl
  ]

  module _ (j : String) where
    abbrev pub see : W → Option String
    see w = view w j

    pub pause-Keeps : Keeps see (pause api)
    pause-Keeps = record { at = λ w. client.sleep_keeps w j }

    pause_if-Keeps : (e : Error) → Keeps see (pause_if_unavailable api e)
    pause_if-Keeps e = record { at = λ w. pause_if-keeps e w j }

    get-Keeps : (all : Bool) (k : String) → Keeps see (api.get all k)
    get-Keeps all k = record { at = λ w. client.get_keeps all k w j }

    get_after-Keeps :
        {A : Type 0} (all : Bool) (answer : Node → A) (k : String) (n : ℕ) (r : Result Node)
        → Keeps see (get_after api all answer k n r)
    unfolding get_after
    get_after-Keeps all answer k n (ok node) = search keeping
    get_after-Keeps all answer k zero (err e) = search (keeping, pause_if-Keeps)
    get_after-Keeps all answer k (suc n) (err e) =
        search (keeping, pause_if-Keeps, get-Keeps, get_after-Keeps all answer k n)

    pub retried_get-Keeps :
        {A : Type 0} (all : Bool) (answer : Node → A) (k : String)
        → Keeps see (retried_get api all answer k)
    unfolding retried_get
    retried_get-Keeps all answer k = search (keeping, get-Keeps, get_after-Keeps)
