-- ===== src/State/Consul.antt =====
-- state/consulstatedriver.go: the driver for consul.
--
-- The record `KvApi` is consul's client. A call of it that fails returns no pair.
pub mod Client
pub mod Reading
pub mod Store
use auth_proxy.Prelude.{
  ℕ, zero, suc, Bool, true, false, not, ◌==◌, ◌||◌, String, append, List, [], ◌∷◌, Option, none,
  some, if◌then◌else◌,
}
use auth_proxy.Errors.{Error, sentinel, errorf, key_not_found, error_text, Result, ok, err}
use auth_proxy.Exec.{Exec, pure, throw, attempt, otherwise, ◌>>=◌, ◌>>◌}
use auth_proxy.Text.{contains, trim_prefix, has_suffix}
use auth_proxy.Types.{datastore_directories}
use auth_proxy.Driver.{StateDriver, Codec, write_state, read_state, read_all_state}

-- `api.KVPair`; a value is nil or bytes.
pub record KvPair : Type 0 where
  pub key : String
  pub value : Option String
  pub modify_index : ℕ

-- `api.KV`, `api.IsServerError`, and `time.Sleep` of a second. A nil pair or a nil list is `none`.
pub record KvApi (W : Type 0) : Type 0 where
  pub put : String → Option String → Exec W (Unit {0})
  pub get : String → Exec W (Option KvPair)
  pub list : String → Exec W (Option (List KvPair))
  pub delete : String → Exec W (Unit {0})
  pub is_server_error : Error → Bool
  pub sleep : W → W

-- `maxConsulRetries`
abbrev pub max_consul_retries : ℕ
max_consul_retries = 10

-- `processKey`
unfoldable pub process_key : String → String
process_key in_key = trim_prefix in_key "/"

-- The bytes of a value, which are none for nil.
unfoldable pub bytes : Option String → String
bytes none = ""
bytes (some s) = s

-- The end of `Read`: consul succeeds with a nil pair for a key that it does not find.
unfoldable pub answered : {W : Type 0} → Option KvPair → Exec W String
unfolding bytes
answered none = throw (sentinel key_not_found)
answered (some kv) = pure (bytes kv.value)

-- The loop of `ReadAll`, which skips the pair of the directory itself.
unfoldable pub values_of : List KvPair → List String
unfolding bytes
values_of [] = []
values_of (kv ∷ kvs) =
    let rest = values_of kvs in if bytes kv.value == "" then rest else bytes kv.value ∷ rest

unfoldable pub all_answered : {W : Type 0} → Option (List KvPair) → Exec W (List String)
unfolding values_of
all_answered none = throw (sentinel key_not_found)
all_answered (some kvs) = pure (values_of kvs)

module _ {W : Type 0} (api : KvApi W) where
  -- The test for an error after which a call is tried again.
  unfoldable pub is_transient : Error → Bool
  is_transient e =
      api.is_server_error e
      || contains (error_text e) "EOF"
      || contains (error_text e) "connection refused"

  abbrev pub pause : Exec W (Unit {0})
  pause w = (ok tt, api.sleep w)

  -- The loop of `Mkdir` after a try, with the number of tries that are left.
  unfoldable pub mkdir_after : String → ℕ → Result (Unit {0}) → Exec W (Unit {0})
  mkdir_after key n (ok _) = pure tt
  mkdir_after key zero (err e) = throw e
  mkdir_after key (suc n) (err e) =
      let again = (do r ← attempt (api.put key none); mkdir_after key n r) in
      if is_transient e then pause >> again else throw e

  -- `Mkdir`
  unfoldable pub mkdir : String → Exec W (Unit {0})
  unfolding process_key
  mkdir key =
      if not (has_suffix (process_key key) "/")
      then throw (errorf "consul directory keys must end with a trailing slash (got '%s')")
      else do
        r ← attempt (api.put (process_key key) none)
        mkdir_after (process_key key) max_consul_retries r

  -- The loop of `Write`, with the number of tries that are left and the last error.
  unfoldable pub write_again : String → String → ℕ → Error → Exec W (Unit {0})
  write_again key value zero e = throw e
  write_again key value (suc n) e = do
    r ← attempt (api.put key (some value))
    otherwise r (λ e'. pause >> write_again key value n e')

  -- `Write`
  unfoldable pub write : String → String → Exec W (Unit {0})
  unfolding process_key
  write key value = do
    r ← attempt (api.put (process_key key) (some value))
    otherwise r (λ e.
        if is_transient e
        then write_again (process_key key) value max_consul_retries e
        else throw e)

  -- The loop of `Read`, with the number of tries that are left. Its last error is not looked at.
  unfoldable pub read_again : String → ℕ → Exec W (Option KvPair)
  read_again key zero = pure none
  read_again key (suc n) = do
    r ← attempt (api.get key)
    otherwise r (λ e. pause >> read_again key n)

  unfoldable pub read_pair : String → Exec W (Option KvPair)
  read_pair key = do
    r ← attempt (api.get key)
    otherwise r (λ e. if is_transient e then read_again key max_consul_retries else throw e)

  -- `Read`
  unfoldable pub read : String → Exec W String
  unfolding process_key answered
  read key = do kv ← read_pair (process_key key); answered kv

  -- `ReadAll`
  unfoldable pub read_all : String → Exec W (List String)
  unfolding process_key all_answered
  read_all base_key = do kvs ← api.list (process_key base_key); all_answered kvs

  -- `Clear`, and `ClearState`
  unfoldable pub clear : String → Exec W (Unit {0})
  unfolding process_key
  clear key = api.delete (process_key key)

  -- `ConsulStateDriver` as a `StateDriver`
  unfoldable pub consul_driver : StateDriver W
  unfolding read read_all write clear
  consul_driver = record { read = read; read_all = read_all; write = write; clear = clear }

  -- The loop of `Init` over the directories; the errors of `Mkdir` are dropped.
  unfoldable pub make_directories : List String → Exec W (Unit {0})
  make_directories [] = pure tt
  make_directories (dir ∷ dirs) = do attempt (mkdir (append dir "/")); make_directories dirs

  module _ {A : Type 0} (c : Codec A) where
    -- `WriteState`, `ReadState` and `ReadAllState`, which trim the key and then call what trims it too.
    unfoldable pub write_state_trimmed : String → A → Exec W (Unit {0})
    unfolding process_key
    write_state_trimmed key value = write_state consul_driver c (process_key key) value

    unfoldable pub read_state_trimmed : String → Exec W A
    unfolding process_key
    read_state_trimmed key = read_state consul_driver c (process_key key)

    unfoldable pub read_all_state_trimmed : String → Exec W (List A)
    unfolding process_key
    read_all_state_trimmed base_key = read_all_state consul_driver c (process_key base_key)

-- `Init`, for the URL of a configuration; the client's library takes the address. The field of the
-- driver is set by `Init`, so that the driver is what it returns.
unfoldable pub init : {W : Type 0} → (String → Exec W (KvApi W)) → String → Exec W (StateDriver W)
init new_client store_url =
    if not (contains store_url "consul://") then throw (errorf "Invalid consul config") else do
      api ← new_client (trim_prefix store_url "consul://")
      make_directories api datastore_directories
      pure (consul_driver api)
