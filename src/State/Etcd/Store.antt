-- ===== src/State/Etcd/Store.antt =====
-- The driver for etcd as a store whose keys name places in a tree of directories, over a client that no
-- other program disturbs.
use auth_proxy.Prelude.{
  ℕ, zero, suc, true, false, ◌≡◌, refl, String, append, Option, none, some, ◌==◌, Bool-cases, inl,
  inr,
}
use auth_proxy.Errors.{Error, Result, ok, err}
use auth_proxy.Text.{has_prefix}
use auth_proxy.Exec.{Exec, attempt, otherwise, ◌>>◌}
use auth_proxy.Exec.Keeps.{Keeps, Keeps-bind, keeping}
use auth_proxy.Driver.Laws.{IsPathStore}
use auth_proxy.State.Etcd.{
  max_etcd_retries, KeysApi, is_unavailable, pause, read, read_all, write_again, written, write,
  cleared, clear, etcd_driver,
}
use auth_proxy.State.Etcd.Client.{IsClient, see, pause-Keeps, retried_get-Keeps}
use auth_proxy.State.Etcd.Reading.{Says-ok, Says-missing, read-Says}

module _ {W : Type 0} (api : KeysApi W) (path : String → String) (view : W → String → Option String)
    (client : IsClient api path view) where
  -- The loop of `Write` stores the value, if it ends without an error.
  write_again-stores :
      (k v : String) (n : ℕ) (e : Error) (w : W)
      → (write_again api k v n e w).0 ≡ ok tt
      → view (write_again api k v n e w).1 (path k) ≡ some v
  unfolding write_again otherwise
  write_again-stores k v zero e w h = cc
  write_again-stores k v (suc n) e w h =
      go (api.set k v w).0 refl h (λ e' w. write_again-stores k v n e' w)
    where
      after : Result (Unit {0}) → Exec W (Unit {0})
      after r = otherwise r (λ e'. pause api >> write_again api k v n e')

      go :
          (r : Result (Unit {0}))
          → (api.set k v w).0 ≡ r
          → (after r (api.set k v w).1).0 ≡ ok tt
          → ((e' : Error) (w : W)
              → (write_again api k v n e' w).0 ≡ ok tt
              → view (write_again api k v n e' w).1 (path k) ≡ some v)
          → view (after r (api.set k v w).1).1 (path k) ≡ some v
      go (ok _) is h rest = client.set_ok k v w is
      go (err e') is h rest = rest e' (api.sleep (api.set k v w).1) h

  written-stores :
      (k v : String) (r : Result (Unit {0})) (w : W)
      → (r ≡ ok tt → view w (path k) ≡ some v)
      → (written api k v r w).0 ≡ ok tt
      → view (written api k v r w).1 (path k) ≡ some v
  unfolding written
  written-stores k v (ok _) w s h = s refl
  written-stores k v (err e) w s h = elim (Bool-cases (is_unavailable api e)) [
    | inl is ↦ rw is (write_again-stores k v max_etcd_retries e w (rw is at h))
    | inr other ↦ cc
  ]

  module _ (k v j : String) (differs : (path k == j) ≡ false)
      (beside : has_prefix (path k) (append j "/") ≡ false) where
    set-Keeps : Keeps (see api path view client j) (api.set k v)
    set-Keeps = record { at = λ w. client.set_keeps k v w j differs beside }

    write_again-Keeps :
        (n : ℕ) (e : Error) → Keeps (see api path view client j) (write_again api k v n e)
    unfolding write_again otherwise
    write_again-Keeps zero e = search keeping
    write_again-Keeps (suc n) e =
        Keeps-bind (see api path view client j) (attempt (api.set k v)) _
          (search (keeping, set-Keeps)) (next (write_again-Keeps n))
      where
        next :
            ((e : Error) → Keeps (see api path view client j) (write_again api k v n e))
            → (r : Result (Unit {0}))
            → Keeps
                (see api path view client j)
                (otherwise r (λ e'. pause api >> write_again api k v n e'))
        next rest (ok _) = search keeping
        next rest (err e') = search (keeping, pause-Keeps api path view client j, rest)

    write-Keeps : Keeps (see api path view client j) (write api k v)
    unfolding write written
    write-Keeps = search (keeping, set-Keeps, written-Keeps)
      where
        written-Keeps :
            (r : Result (Unit {0})) → Keeps (see api path view client j) (written api k v r)
        written-Keeps (ok _) = search keeping
        written-Keeps (err e) = search (keeping, write_again-Keeps)

  cleared-gone :
      (k : String) (r : Result (Unit {0})) (w : W)
      → (r ≡ ok tt → view w (path k) ≡ none)
      → ((e : Error) → r ≡ err e → api.is_missing e ≡ true → view w (path k) ≡ none)
      → (cleared api r w).0 ≡ ok tt
      → view (cleared api r w).1 (path k) ≡ none
  unfolding cleared
  cleared-gone k (ok _) w s m h = s refl
  cleared-gone k (err e) w s m h = elim (Bool-cases (api.is_missing e)) [
    | inl is ↦ rw is (m e refl is)
    | inr other ↦ cc
  ]

  clear-Keeps :
      (k j : String) → (path k == j) ≡ false → Keeps (see api path view client j) (clear api k)
  unfolding clear cleared
  clear-Keeps k j differs =
      Keeps-bind (see api path view client j) (attempt (api.delete k)) (cleared api)
        (search (keeping, delete-Keeps)) cleared-Keeps
    where
      delete-Keeps : Keeps (see api path view client j) (api.delete k)
      delete-Keeps = record { at = λ w. client.delete_keeps k w j differs }

      cleared-Keeps : (r : Result (Unit {0})) → Keeps (see api path view client j) (cleared api r)
      cleared-Keeps (ok _) = search keeping
      cleared-Keeps (err e) = search keeping

  -- The driver for etcd keeps the laws of a store whose keys name places in a tree of directories, if
  -- its client does what etcd documents.
  pub etcd_driver-IsPathStore : IsPathStore (etcd_driver api) path view
  unfolding etcd_driver read read_all write clear
  etcd_driver-IsPathStore = record {
    read_ok = λ k v w h.
        Says-ok (view w (path k)) (read api k w).0 v (read-Says api path view client k w) h;
    read_missing = λ k w h.
        Says-missing (view w (path k)) (read api k w).0 (read-Says api path view client k w) h;
    read_keeps = λ k w j. read-keeps k j w;
    read_all_keeps = λ k w j. read_all-keeps k j w;
    write_ok = λ k v w h. write-stores k v w h;
    write_keeps = λ k v w j h b. (write-Keeps k v j h b).at w;
    clear_ok = λ k w h. clear-gone k w h;
    clear_keeps = λ k w j h. (clear-Keeps k j h).at w;
  }
    where
      read-keeps : (k j : String) (w : W) → view (read api k w).1 j ≡ view w j
      read-keeps k j w =
          (retried_get-Keeps api path view client j false (λ node. node.value) k).at w

      read_all-keeps : (k j : String) (w : W) → view (read_all api k w).1 j ≡ view w j
      read_all-keeps k j w =
          (retried_get-Keeps api path view client j true (λ node. node.nodes) k).at w

      write-stores :
          (k v : String) (w : W)
          → (write api k v w).0 ≡ ok tt
          → view (write api k v w).1 (path k) ≡ some v
      write-stores k v w h =
          written-stores k v (api.set k v w).0 (api.set k v w).1 (client.set_ok k v w) h

      clear-gone :
          (k : String) (w : W) → (clear api k w).0 ≡ ok tt → view (clear api k w).1 (path k) ≡ none
      clear-gone k w h =
          cleared-gone k (api.delete k w).0 (api.delete k w).1 (client.delete_ok k w)
            (λ e. client.delete_missing k e w) h
