-- ===== src/State/Etcd.antt =====
-- state/etcdstatedriver.go: the driver for etcd.
--
-- The record `KeysApi` is etcd's client; a call's timeout is part of what the client does.
pub mod Client
pub mod Reading
pub mod Store
pub mod Retries
use auth_proxy.Prelude.{
  ℕ, zero, suc, Bool, true, false, not, ◌==◌, String, append, List, [], ◌∷◌, Option, none, some,
  if◌then◌else◌,
}
use auth_proxy.Errors.{Error, sentinel, errorf, panic, key_not_found, error_text, Result, ok, err}
use auth_proxy.Exec.{Exec, pure, throw, attempt, always, otherwise, ◌>>=◌, ◌>>◌}
use auth_proxy.Text.{contains, has_prefix, replace_first}
use auth_proxy.Types.{datastore_directories}
use auth_proxy.Driver.{StateDriver}

-- `client.Node`: its value, and the values of the nodes below it.
pub record Node : Type 0 where
  pub value : String
  pub nodes : List String

-- `client.KeysAPI`, and `time.Sleep` of a second. A value is set, or a directory; the nodes below are
-- asked for with a recursive `Get`. `is_missing` is `client.IsKeyNotFound`, and `unavailable` the
-- text of `client.ErrClusterUnavailable`.
pub record KeysApi (W : Type 0) : Type 0 where
  pub set : String → String → Exec W (Unit {0})
  pub set_dir : String → Exec W (Unit {0})
  pub get : Bool → String → Exec W Node
  pub delete : String → Exec W (Unit {0})
  pub is_missing : Error → Bool
  pub unavailable : String
  pub sleep : W → W

-- `maxEtcdRetries`
abbrev pub max_etcd_retries : ℕ
max_etcd_retries = 10

module _ {W : Type 0} (api : KeysApi W) where
  unfoldable pub is_unavailable : Error → Bool
  is_unavailable e = error_text e == api.unavailable

  abbrev pub pause : Exec W (Unit {0})
  pause w = (ok tt, api.sleep w)

  -- The loops of `Read` and `ReadAll` wait only for a cluster that is unavailable, but try again
  -- whatever the error was.
  abbrev pub pause_if_unavailable : Error → Exec W (Unit {0})
  pause_if_unavailable e w = (ok tt, if is_unavailable e then api.sleep w else w)

  -- The loop of `Read` and `ReadAll` after a try, with the number of tries that are left.
  unfoldable pub get_after : {A : Type 0} → Bool → (Node → A) → String → ℕ → Result Node → Exec W A
  get_after all answer key n (ok node) = pure (answer node)
  get_after all answer key zero (err e) =
      if api.is_missing e
      then throw (sentinel key_not_found)
      else do pause_if_unavailable e; throw e
  get_after all answer key (suc n) (err e) =
      let again = (do r ← attempt (api.get all key); get_after all answer key n r) in
      if api.is_missing e then throw (sentinel key_not_found) else do pause_if_unavailable e; again

  unfoldable pub retried_get : {A : Type 0} → Bool → (Node → A) → String → Exec W A
  retried_get all answer key = do
    r ← attempt (api.get all key)
    get_after all answer key max_etcd_retries r

  -- `Read`
  unfoldable pub read : String → Exec W String
  read key = retried_get false (λ node. node.value) key

  -- `ReadAll`
  unfoldable pub read_all : String → Exec W (List String)
  read_all base_key = retried_get true (λ node. node.nodes) base_key

  -- The loop of `Write`, with the number of tries that are left and the last error.
  unfoldable pub write_again : String → String → ℕ → Error → Exec W (Unit {0})
  write_again key value zero e = throw e
  write_again key value (suc n) e = do
    r ← attempt (api.set key value)
    otherwise r (λ e'. pause >> write_again key value n e')

  unfoldable written : String → String → Result (Unit {0}) → Exec W (Unit {0})
  written key value (ok _) = pure tt
  written key value (err e) =
      if is_unavailable e then write_again key value max_etcd_retries e else throw e

  -- `Write`
  unfoldable pub write : String → String → Exec W (Unit {0})
  unfolding written
  write key value = do r ← attempt (api.set key value); written key value r

  -- The loop of `Mkdir` after a try.
  unfoldable pub mkdir_after : String → ℕ → Result (Unit {0}) → Exec W (Unit {0})
  mkdir_after key n (ok _) = pure tt
  mkdir_after key zero (err e) = throw e
  mkdir_after key (suc n) (err e) =
      let again = (do r ← attempt (api.set_dir key); mkdir_after key n r) in
      if is_unavailable e then pause >> again else throw e

  -- `Mkdir`
  unfoldable pub mkdir : String → Exec W (Unit {0})
  mkdir key =
      if not (has_prefix key "/")
      then throw (errorf "etcd keys must begin with a slash (got '%s')")
      else do r ← attempt (api.set_dir key); mkdir_after key max_etcd_retries r

  unfoldable cleared : Result (Unit {0}) → Exec W (Unit {0})
  cleared (ok _) = pure tt
  cleared (err e) = if api.is_missing e then pure tt else throw e

  -- `Clear`, and `ClearState`
  unfoldable pub clear : String → Exec W (Unit {0})
  unfolding cleared
  clear key = do r ← attempt (api.delete key); cleared r

  -- `EtcdStateDriver` as a `StateDriver`
  unfoldable pub etcd_driver : StateDriver W
  unfolding read read_all write clear
  etcd_driver = record { read = read; read_all = read_all; write = write; clear = clear }

  -- The loop of `Init` over the directories; the errors of `Mkdir` are dropped.
  unfoldable pub make_directories : List String → Exec W (Unit {0})
  make_directories [] = pure tt
  make_directories (dir ∷ dirs) = do attempt (mkdir (append "/" dir)); make_directories dirs

module _ {W : Type 0} (new_client : String → Exec W (KeysApi W)) where
  -- An error of `client.New` ends the program, as `log.Fatalf` does.
  unfoldable client_made : Result (KeysApi W) → Exec W (StateDriver W)
  client_made (ok api) = do make_directories api datastore_directories; pure (etcd_driver api)
  client_made (err e) = throw (panic (append "failed to create etcd client, err: " (error_text e)))

  -- `Init`, for the URL of a configuration; the client's library takes the endpoint. The fields of
  -- the driver are set by `Init`, so that the driver is what it returns.
  unfoldable pub init : String → Exec W (StateDriver W)
  unfolding client_made
  init store_url =
      if not (contains store_url "etcd://")
      then throw (errorf "Invalid etcd config")
      else do r ← attempt (new_client (replace_first store_url "etcd://" "http://")); client_made r
