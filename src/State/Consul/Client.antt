-- ===== src/State/Consul/Client.antt =====
-- What consul documents of its client, and what `Read` of state/consulstatedriver.go makes of a consul
-- that it does not reach.
use auth_proxy.Prelude.{ℕ, zero, suc, true, false, ◌≡◌, refl, String, Option, none, some, ◌==◌}
use auth_proxy.Errors.{Error, sentinel, key_not_found, is_key_not_found, ok, err}
use auth_proxy.Exec.{otherwise}
use auth_proxy.State.Consul.{
  KvPair, KvApi, max_consul_retries, process_key, bytes, answered, is_transient, read_again,
  read_pair, read,
}

-- The value that a pair shows; consul answers with no pair for a key that it does not hold.
unfoldable pub shown : Option KvPair → Option String
unfolding bytes
shown none = none
shown (some kv) = some (bytes kv.value)

-- What consul documents of its client: a call that succeeds does what it says, no call touches
-- another key, and no error is one of this program's own.
pub record IsClient {W : Type 0} (api : KvApi W) (view : W → String → Option String) : Type 0 where
  pub get_ok :
      (k : String) (kv : Option KvPair) (w : W) → (api.get k w).0 ≡ ok kv → view w k ≡ shown kv
  pub get_error :
      (k : String) (e : Error) (w : W) → (api.get k w).0 ≡ err e → is_key_not_found e ≡ false
  pub get_keeps : (k : String) (w : W) (j : String) → view (api.get k w).1 j ≡ view w j
  pub list_keeps : (k : String) (w : W) (j : String) → view (api.list k w).1 j ≡ view w j
  pub put_ok :
      (k v : String) (w : W)
      → (api.put k (some v) w).0 ≡ ok tt
      → view (api.put k (some v) w).1 k ≡ some v
  pub put_keeps :
      (k : String) (v : Option String) (w : W) (j : String)
      → (k == j) ≡ false
      → view (api.put k v w).1 j ≡ view w j
  pub delete_ok :
      (k : String) (w : W) → (api.delete k w).0 ≡ ok tt → view (api.delete k w).1 k ≡ none
  pub delete_keeps :
      (k : String) (w : W) (j : String) → (k == j) ≡ false → view (api.delete k w).1 j ≡ view w j
  pub sleep_keeps : (w : W) (j : String) → view (api.sleep w) j ≡ view w j

module _ {W : Type 0} (api : KvApi W) (key : String) where
  -- `n` calls of `Get`, a second apart, that all fail.
  pub data Fails : ℕ → W → Type 0 where
    no_more : (w : W) → Fails zero w
    once_more :
        (n : ℕ) (e : Error) (w : W)
        → (api.get key w).0 ≡ err e
        → Fails n (api.sleep (api.get key w).1)
        → Fails (suc n) w

  -- Consul is not reached: a first call fails with an error after which the driver tries again, and
  -- then the ten tries fail as well.
  pub record Unreached (w : W) : Type 0 where
    pub error : Error
    pub fails : (api.get key w).0 ≡ err error
    pub transient : is_transient api error ≡ true
    pub again : Fails max_consul_retries (api.get key w).1

module _ {W : Type 0} (api : KvApi W) where
  Fails-none : (k : String) (n : ℕ) (w : W) → Fails api k n w → (read_again api k n w).0 ≡ ok none
  unfolding read_again otherwise
  Fails-none k zero w f = refl
  Fails-none k (suc n) w (once_more _ e _ failed rest) =
      rw failed (Fails-none k n (api.sleep (api.get k w).1) rest)

  -- If consul is not reached, then `Read` says that there is no such key, whatever the key holds.
  pub read-Unreached :
      (k : String) (w : W)
      → Unreached api (process_key k) w
      → (read api k w).0 ≡ err (sentinel key_not_found)
  unfolding read read_pair otherwise answered
  read-Unreached k w u =
      rw (u.fails, u.transient, Fails-none (process_key k) max_consul_retries _ u.again) refl
