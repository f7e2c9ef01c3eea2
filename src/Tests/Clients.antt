-- ===== src/Tests/Clients.antt =====
-- Clients of etcd and consul over the store in memory, and an LDAP server with a cycle of groups.
use auth_proxy.Prelude.{
  ℕ, zero, suc, Bool, true, false, ◌≡◌, refl, sym, String, List, [], ◌∷◌, Option, none, some, ◌==◌,
  if◌then◌else◌,
}
use auth_proxy.Errors.{Error, foreign, is_key_not_found, Result, ok, err}
use auth_proxy.Text.{trim_prefix}
use auth_proxy.State.Etcd.{Node, KeysApi}
use auth_proxy.State.Etcd.Client as EtcdClient
use auth_proxy.State.Consul.{KvPair, KvApi, bytes}
use auth_proxy.State.Consul.Client as ConsulClient
use auth_proxy.Auth.Ldap.{Ldap}
use auth_proxy.Tests.Store.{Entries, find, without, memory-IsStore}

abbrev node_of : Option String → Result Node
node_of (some v) = ok (record { value = v; nodes = [] })
node_of none = err (foreign "missing")

abbrev is_missing : Error → Bool
is_missing (foreign text) = text == "missing"
is_missing _ = false

abbrev pub memory_keys : KeysApi Entries
memory_keys = record {
  set = λ k v w. (ok tt, (k, v) ∷ w);
  set_dir = λ k w. (ok tt, w);
  get = λ all k w. (node_of (find w k), w);
  delete = λ k w. (ok tt, without w k);
  is_missing = is_missing;
  unavailable = "unavailable";
  sleep = λ w. w;
}

node-value : (o : Option String) (node : Node) → node_of o ≡ ok node → o ≡ some node.value
node-value (some v) node h =
    let same : record { value = v; nodes = [] } ≡ node = cc h in rw (sym same) refl
node-value none node h = cc

node-missing : (o : Option String) (e : Error) → node_of o ≡ err e → o ≡ none
node-missing (some v) e h = cc
node-missing none e h = refl

node-error : (o : Option String) (e : Error) → node_of o ≡ err e → is_key_not_found e ≡ false
unfolding is_key_not_found
node-error (some v) e h = cc
node-error none e h = let same : foreign "missing" ≡ e = cc h in rw (sym same) refl

-- A key with and without a leading slash names one place.
abbrev pub place : String → String
place k = trim_prefix k "/"

abbrev pub placed_keys : KeysApi Entries
placed_keys = record memory_keys {
  set = λ k v w. (ok tt, (place k, v) ∷ w);
  get = λ all k w. (node_of (find w (place k)), w);
  delete = λ k w. (ok tt, without w (place k));
}

pub placed_keys-IsClient : EtcdClient.IsClient placed_keys place find
placed_keys-IsClient = record {
  get_ok = λ k node w h. node-value (find w (place k)) node h;
  get_missing = λ k e w h m. node-missing (find w (place k)) e h;
  get_keeps = λ all k w j. refl;
  get_error = λ all k e w h. node-error (find w (place k)) e h;
  set_ok = λ k v w h. memory-IsStore.write_ok (place k) v w h;
  set_keeps = λ k v w j h b. memory-IsStore.write_keeps (place k) v w j h;
  delete_ok = λ k w h. memory-IsStore.clear_ok (place k) w h;
  delete_missing = λ k e w h m. cc;
  delete_keeps = λ k w j h. memory-IsStore.clear_keeps (place k) w j h;
  sleep_keeps = λ w j. refl;
}

abbrev pair_of : String → Option String → Option KvPair
pair_of k (some v) = some (record { key = k; value = some v; modify_index = 1 })
pair_of k none = none

abbrev value_of : Option String → String
value_of (some v) = v
value_of none = ""

abbrev pub memory_kv : KvApi Entries
memory_kv = record {
  put = λ k v w. (ok tt, (k, value_of v) ∷ w);
  get = λ k w. (ok (pair_of k (find w k)), w);
  list = λ k w. (ok none, w);
  delete = λ k w. (ok tt, without w k);
  is_server_error = λ e. false;
  sleep = λ w. w;
}

pair-shown :
    (k : String) (o : Option String) (kv : Option KvPair)
    → ok (pair_of k o) ≡ ok kv
    → o ≡ ConsulClient.shown kv
unfolding ConsulClient.shown bytes
pair-shown k (some v) kv h = let same : pair_of k (some v) ≡ kv = cc h in rw (sym same) refl
pair-shown k none kv h = let same : pair_of k none ≡ kv = cc h in rw (sym same) refl

pub memory_kv-IsClient : ConsulClient.IsClient memory_kv find
memory_kv-IsClient = record {
  get_ok = λ k kv w h. pair-shown k (find w k) kv h;
  get_error = λ k e w h. cc;
  get_keeps = λ k w j. refl;
  list_keeps = λ k w j. refl;
  put_ok = λ k v w h. memory-IsStore.write_ok k v w h;
  put_keeps = λ k v w j h. memory-IsStore.write_keeps k (value_of v) w j h;
  delete_ok = λ k w h. memory-IsStore.clear_ok k w h;
  delete_keeps = λ k w j h. memory-IsStore.clear_keeps k w j h;
  sleep_keeps = λ w j. refl;
}

-- Etcd is unavailable for as many calls as the world says, and counts the calls down.
abbrev later_node : ℕ → Result Node × ℕ
later_node zero = (ok (record { value = "blue"; nodes = [] }), zero)
later_node (suc n) = (err (foreign "unavailable"), n)

abbrev pub late_keys : KeysApi ℕ
late_keys = record {
  set = λ k v w. (ok tt, w);
  set_dir = λ k w. (ok tt, w);
  get = λ all k w. later_node w;
  delete = λ k w. (ok tt, w);
  is_missing = is_missing;
  unavailable = "unavailable";
  sleep = λ w. w;
}

-- Etcd is always unavailable; the world is the number of calls.
abbrev pub counting_keys : KeysApi ℕ
counting_keys = record {
  set = λ k v w. (err (foreign "unavailable"), suc w);
  set_dir = λ k w. (err (foreign "unavailable"), suc w);
  get = λ all k w. (err (foreign "unavailable"), suc w);
  delete = λ k w. (err (foreign "unavailable"), suc w);
  is_missing = is_missing;
  unavailable = "unavailable";
  sleep = λ w. w;
}

-- A consul that is never reached.
abbrev pub lost_kv : KvApi (Unit {0})
lost_kv = record {
  put = λ k v w. (err (foreign "EOF"), w);
  get = λ k w. (err (foreign "EOF"), w);
  list = λ k w. (err (foreign "EOF"), w);
  delete = λ k w. (err (foreign "EOF"), w);
  is_server_error = λ e. true;
  sleep = λ w. w;
}

-- The groups "ops" and "staff" are members of each other.
abbrev pub member_of : String → List String
member_of g = if g == "ops" then "staff" ∷ [] else "ops" ∷ []

-- Every search finds one entry, and every password is taken.
abbrev pub friendly : {W : Type 0} → Ldap W
friendly = record {
  Conn = String;
  dial = λ address w. (ok address, w);
  start_tls = λ conn tls w. (ok tt, w);
  bind = λ conn dn password w. (ok tt, w);
  search =
      λ conn req w. (ok (record { dn = req.base_dn; member_of = member_of req.base_dn } ∷ []), w);
  close = λ conn w. w;
}
