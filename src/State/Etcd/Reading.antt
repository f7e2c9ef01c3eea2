-- ===== src/State/Etcd/Reading.antt =====
-- What `Read` of state/etcdstatedriver.go says of the value that etcd holds.
use auth_proxy.Prelude.{
  ℕ, zero, suc, Bool, true, false, ◌≡◌, refl, sym, subst, String, Option, none, some, Bool-cases,
  inl, inr,
}
use auth_proxy.Errors.{Error, sentinel, key_not_found, is_key_not_found, Result, ok, err}
use auth_proxy.Exec.{Exec, attempt, ◌>>=◌}
use auth_proxy.State.Etcd.{
  max_etcd_retries, Node, KeysApi, pause_if_unavailable, get_after, retried_get, read,
}
use auth_proxy.State.Etcd.Client.{IsClient, pause_if-keeps}

-- What a try shows of the value that the store holds.
Shows : Option String → (Error → Bool) → Result Node → Type 0
Shows held missing (ok node) = held ≡ some node.value
Shows held missing (err e) = (missing e ≡ true → held ≡ none) × (is_key_not_found e ≡ false)

-- What the answer of `Read` says of the value that the store holds.
pub Says : Option String → Result String → Type 0
Says held (ok v) = held ≡ some v
Says held (err e) = is_key_not_found e ≡ true → held ≡ none

pub Says-ok :
    (held : Option String) (r : Result String) (v : String) → Says held r → r ≡ ok v → held ≡ some v
unfolding Says
Says-ok held (ok u) v s h = cc
Says-ok held (err e) v s h = cc

pub Says-missing :
    (held : Option String) (r : Result String)
    → Says held r
    → r ≡ err (sentinel key_not_found)
    → held ≡ none
unfolding Says is_key_not_found
Says-missing held (ok u) s h = cc
Says-missing held (err e) s h =
    let same : sentinel key_not_found ≡ e = cc h in
    s (subst (λ x. is_key_not_found x ≡ true) same refl)

module _ {W : Type 0} (api : KeysApi W) (path : String → String) (view : W → String → Option String)
    (client : IsClient api path view) where
  get-Shows :
      (k : String) (w : W) (r : Result Node)
      → (api.get false k w).0 ≡ r
      → Shows (view w (path k)) api.is_missing r
  unfolding Shows
  get-Shows k w (ok node) h = client.get_ok k node w h
  get-Shows k w (err e) h = (λ m. client.get_missing k e w h m, client.get_error false k e w h)

  get_after-Says :
      (k : String) (n : ℕ) (r : Result Node) (w : W)
      → Shows (view w (path k)) api.is_missing r
      → Says (view w (path k)) (get_after api false (λ node. node.value) k n r w).0
  unfolding get_after Says Shows
  get_after-Says k n (ok node) w s = s
  get_after-Says k zero (err e) w s = elim (Bool-cases (api.is_missing e)) [
    | inl is ↦ rw is (λ _. s.0 is)
    | inr other ↦ rw other (λ m. cc (s.1, m))
  ]
  get_after-Says k (suc n) (err e) w s = elim (Bool-cases (api.is_missing e)) [
    | inl is ↦ rw is (λ _. s.0 is)
    | inr other ↦ rw other (
        subst (λ held. Says held (again (pause_if_unavailable api e w).1).0)
          (pause_if-keeps api path view client e w (path k))
          (next (get_after-Says k n) (pause_if_unavailable api e w).1))
  ]
    where
      again : Exec W String
      again = do r ← attempt (api.get false k); get_after api false (λ node. node.value) k n r

      next :
          ((r : Result Node) (w : W)
            → Shows (view w (path k)) api.is_missing r
            → Says (view w (path k)) (get_after api false (λ node. node.value) k n r w).0)
          → (w : W) → Says (view w (path k)) (again w).0
      next rest w =
          let kept = client.get_keeps false k w (path k) in
          let got =
            subst (λ held. Shows held api.is_missing (api.get false k w).0) (sym kept)
              (get-Shows k w (api.get false k w).0 refl) in
          subst (λ held. Says held (again w).0) kept
            (rest (api.get false k w).0 (api.get false k w).1 got)

  pub read-Says : (k : String) (w : W) → Says (view w (path k)) (read api k w).0
  unfolding read retried_get
  read-Says k w =
      let kept = client.get_keeps false k w (path k) in
      let got =
        subst (λ held. Shows held api.is_missing (api.get false k w).0) (sym kept)
          (get-Shows k w (api.get false k w).0 refl) in
      subst (λ held. Says held (read api k w).0) kept
        (get_after-Says k max_etcd_retries (api.get false k w).0 (api.get false k w).1 got)
