-- ===== src/State/Consul/Store.antt =====
-- What the driver for consul promises of the store, if its client does what consul documents and no
-- other program writes.
use auth_proxy.Prelude.{
  ℕ, zero, suc, false, ◌≡◌, ◌⊎◌, refl, String, List, Option, none, some, ◌==◌, Bool-cases, inl, inr,
  if◌then◌else◌,
}
use auth_proxy.Errors.{Error, sentinel, key_not_found, Result, ok, err}
use auth_proxy.Exec.{Exec, throw, otherwise, ◌>>◌}
use auth_proxy.Exec.Keeps.{
  Keeps, Keeps-bind, Keeps-then, Keeps-if, Keeps-throw, Keeps-retry, keeping,
}
use auth_proxy.State.Consul.{
  KvPair, KvApi, max_consul_retries, process_key, answered, all_answered, is_transient, pause,
  write_again, write, read_again, read_pair, read, read_all, clear,
}
use auth_proxy.State.Consul.Client.{IsClient, Unreached}
use auth_proxy.State.Consul.Reading.{read-finds}

-- The laws of a store whose keys are told apart without a leading slash. A key that is said to be
-- missing is missing, or consul was not reached.
pub record IsTrimmedStore {W : Type 0} (api : KvApi W) (view : W → String → Option String)
    : Type 0 where
  pub read_ok : (k v : String) (w : W) → (read api k w).0 ≡ ok v → view w (process_key k) ≡ some v
  pub read_missing :
      (k : String) (w : W)
      → (read api k w).0 ≡ err (sentinel key_not_found)
      → (view w (process_key k) ≡ none) ⊎ Unreached api (process_key k) w
  pub read_keeps : (k : String) (w : W) (j : String) → view (read api k w).1 j ≡ view w j
  pub read_all_keeps : (k : String) (w : W) (j : String) → view (read_all api k w).1 j ≡ view w j
  pub write_ok :
      (k v : String) (w : W)
      → (write api k v w).0 ≡ ok tt
      → view (write api k v w).1 (process_key k) ≡ some v
  pub write_keeps :
      (k v : String) (w : W) (j : String)
      → (process_key k == j) ≡ false
      → view (write api k v w).1 j ≡ view w j
  pub clear_ok :
      (k : String) (w : W)
      → (clear api k w).0 ≡ ok tt
      → view (clear api k w).1 (process_key k) ≡ none
  pub clear_keeps :
      (k : String) (w : W) (j : String)
      → (process_key k == j) ≡ false
      → view (clear api k w).1 j ≡ view w j

module _ {W : Type 0} (api : KvApi W) (view : W → String → Option String)
    (client : IsClient api view) where
  abbrev seen : String → W → Option String
  seen j w = view w j

  get-Keeps : (k j : String) → Keeps (seen j) (api.get k)
  get-Keeps k j = record { at = λ w. client.get_keeps k w j }

  pause-Keeps : (j : String) → Keeps (seen j) (pause api)
  pause-Keeps j = record { at = λ w. client.sleep_keeps w j }

module _ {W : Type 0} (api : KvApi W) (view : W → String → Option String)
    (client : IsClient api view) where
  put-Keeps :
      (k : String) (v : Option String) (j : String)
      → (k == j) ≡ false
      → Keeps (seen api view client j) (api.put k v)
  put-Keeps k v j differs = record { at = λ w. client.put_keeps k v w j differs }

  read_again-Keeps : (k j : String) (n : ℕ) → Keeps (seen api view client j) (read_again api k n)
  unfolding read_again
  read_again-Keeps k j zero = search keeping
  read_again-Keeps k j (suc n) =
      Keeps-retry (seen api view client j) (api.get k) (λ e. pause api >> read_again api k n)
        (get-Keeps api view client k j)
        (λ e.
          Keeps-then (seen api view client j) (pause api) (read_again api k n)
            (pause-Keeps api view client j) (read_again-Keeps k j n))

  read_pair-Keeps : (k j : String) → Keeps (seen api view client j) (read_pair api k)
  unfolding read_pair
  read_pair-Keeps k j =
      Keeps-retry (seen api view client j) (api.get k)
        (λ e. if is_transient api e then read_again api k max_consul_retries else throw e)
        (get-Keeps api view client k j)
        (λ e.
          Keeps-if (seen api view client j) (is_transient api e)
            (read_again api k max_consul_retries) (throw e)
            (read_again-Keeps k j max_consul_retries) (Keeps-throw (seen api view client j) e))

  read-Keeps : (k j : String) → Keeps (seen api view client j) (read api k)
  unfolding read answered
  read-Keeps k j =
      Keeps-bind (seen api view client j) (read_pair api (process_key k)) answered
        (read_pair-Keeps (process_key k) j) answered-Keeps
    where
      answered-Keeps : (kv : Option KvPair) → Keeps (seen api view client j) (answered kv)
      answered-Keeps none = search keeping
      answered-Keeps (some kv) = search keeping

  read_all-Keeps : (k j : String) → Keeps (seen api view client j) (read_all api k)
  unfolding read_all all_answered
  read_all-Keeps k j =
      Keeps-bind (seen api view client j) (api.list (process_key k)) all_answered
        (record { at = λ w. client.list_keeps (process_key k) w j }) answered-Keeps
    where
      answered-Keeps :
          (kvs : Option (List KvPair)) → Keeps (seen api view client j) (all_answered kvs)
      answered-Keeps none = search keeping
      answered-Keeps (some kvs) = search keeping

  write_again-Keeps :
      (k v : String) (j : String)
      → (k == j) ≡ false
      → (n : ℕ) (e : Error) → Keeps (seen api view client j) (write_again api k v n e)
  unfolding write_again
  write_again-Keeps k v j differs zero e = search keeping
  write_again-Keeps k v j differs (suc n) e =
      Keeps-retry (seen api view client j) (api.put k (some v))
        (λ e'. pause api >> write_again api k v n e') (put-Keeps k (some v) j differs)
        (λ e'.
          Keeps-then (seen api view client j) (pause api) (write_again api k v n e')
            (pause-Keeps api view client j) (write_again-Keeps k v j differs n e'))

  write-Keeps :
      (k v : String) (j : String)
      → (process_key k == j) ≡ false
      → Keeps (seen api view client j) (write api k v)
  unfolding write
  write-Keeps k v j differs =
      Keeps-retry (seen api view client j) (api.put (process_key k) (some v))
        (λ e.
          if is_transient api e
          then write_again api (process_key k) v max_consul_retries e
          else throw e)
        (put-Keeps (process_key k) (some v) j differs)
        (λ e.
          Keeps-if (seen api view client j) (is_transient api e)
            (write_again api (process_key k) v max_consul_retries e) (throw e)
            (write_again-Keeps (process_key k) v j differs max_consul_retries e)
            (Keeps-throw (seen api view client j) e))

  put-stores :
      (k v : String) (next : Error → Exec W (Unit {0})) (r : Result (Unit {0})) (w : W)
      → (r ≡ ok tt → view w k ≡ some v)
      → ((e : Error) → (next e w).0 ≡ ok tt → view (next e w).1 k ≡ some v)
      → (otherwise r next w).0 ≡ ok tt
      → view (otherwise r next w).1 k ≡ some v
  unfolding otherwise
  put-stores k v next (ok _) w s n h = s refl
  put-stores k v next (err e) w s n h = n e h

  write_again-stores :
      (k v : String) (n : ℕ) (e : Error) (w : W)
      → (write_again api k v n e w).0 ≡ ok tt
      → view (write_again api k v n e w).1 k ≡ some v
  unfolding write_again
  write_again-stores k v zero e w h = cc
  write_again-stores k v (suc n) e w h =
      put-stores k v (λ e'. pause api >> write_again api k v n e') (api.put k (some v) w).0
        (api.put k (some v) w).1 (client.put_ok k v w)
        (λ e'. write_again-stores k v n e' (api.sleep (api.put k (some v) w).1)) h

  write-stores :
      (k v : String) (w : W)
      → (write api k v w).0 ≡ ok tt
      → view (write api k v w).1 (process_key k) ≡ some v
  unfolding write
  write-stores k v w h =
      put-stores (process_key k) v
        (λ e.
          if is_transient api e
          then write_again api (process_key k) v max_consul_retries e
          else throw e)
        (api.put (process_key k) (some v) w).0 (api.put (process_key k) (some v) w).1
        (client.put_ok (process_key k) v w) retried h
    where
      retried :
          (e : Error)
          → ((if is_transient api e
                then write_again api (process_key k) v max_consul_retries e
                else throw e)
              (api.put (process_key k) (some v) w).1).0
            ≡ ok tt
          → view
              ((if is_transient api e
                  then write_again api (process_key k) v max_consul_retries e
                  else throw e)
                (api.put (process_key k) (some v) w).1).1
              (process_key k)
            ≡ some v
      retried e h = elim (Bool-cases (is_transient api e)) [
        | inl again ↦ rw again (
            write_again-stores (process_key k) v max_consul_retries e
              (api.put (process_key k) (some v) w).1 (rw again at h))
        | inr other ↦ cc
      ]

  -- The driver keeps the laws of a store for keys told apart without a leading slash, if its client
  -- does what consul documents; a key that it says is missing is missing, or consul was not reached.
  pub consul_driver-IsTrimmedStore : IsTrimmedStore api view
  unfolding clear
  consul_driver-IsTrimmedStore = record {
    read_ok =
        λ k v w. (read-finds api view client k w (read_pair api (process_key k) w).0 refl).0 v;
    read_missing =
        λ k w. (read-finds api view client k w (read_pair api (process_key k) w).0 refl).1;
    read_keeps = λ k w j. (read-Keeps k j).at w;
    read_all_keeps = λ k w j. (read_all-Keeps k j).at w;
    write_ok = write-stores;
    write_keeps = λ k v w j differs. (write-Keeps k v j differs).at w;
    clear_ok = λ k w. client.delete_ok (process_key k) w;
    clear_keeps = λ k w j. client.delete_keeps (process_key k) w j;
  }
