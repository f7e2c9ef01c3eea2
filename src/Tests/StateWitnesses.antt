-- ===== src/Tests/StateWitnesses.antt =====
-- The theorems about the drivers of the stores at small clients.
use auth_proxy.Prelude.{
  List, ◌∷◌, ℕ, zero, suc, ◌+◌, ◌≤◌, ◌≡◌, refl, arith, true, false, String, [], Option, none, some,
}
use auth_proxy.Errors.{Error, sentinel, foreign, key_not_found, error_text, Result, ok, err}
use auth_proxy.Text.{is_empty, trim_prefix}
use auth_proxy.Driver.Laws.{IsPathStore}
use auth_proxy.State.Etcd.{etcd_driver, Node}
use auth_proxy.State.Etcd
use auth_proxy.State.Etcd.Store.{etcd_driver-IsPathStore}
use auth_proxy.State.Etcd.Retries.{
  IsCount, etcd-calls_bounded, Answers, at_once, after_failure, read-Answers,
}
use auth_proxy.State.Consul
use auth_proxy.State.Consul.Client.{Fails, no_more, once_more, Unreached, read-Unreached}
use auth_proxy.State.Consul.Store.{IsTrimmedStore, consul_driver-IsTrimmedStore}
use auth_proxy.State.Watching.{seen, is_seen, consul_round}
use auth_proxy.State.Watching.Cache.{has_unique_keys, IsConsistent, consul_round-seen}
use auth_proxy.State.Factory.{etcd_type, init_helper, Instance, new_state_driver}
use auth_proxy.State.Factory.Choice.{new_state_driver-once}
use auth_proxy.Tests.Store.{Entries, find}
use auth_proxy.Tests.Clients.{
  memory_keys, place, placed_keys, placed_keys-IsClient, counting_keys, memory_kv,
  memory_kv-IsClient, late_keys, lost_kv,
}

etcd_driver-IsPathStore_example : IsPathStore (etcd_driver placed_keys) place find
etcd_driver-IsPathStore_example =
    etcd_driver-IsPathStore placed_keys place find placed_keys-IsClient

each_counts : IsCount counting_keys (λ w. w)
each_counts = record {
  get_once = λ all k w. omega arith;
  set_once = λ k v w. omega arith;
  set_dir_once = λ k w. omega arith;
  sleep_none = λ w. omega arith;
}

etcd-calls_bounded_example :
    ((Etcd.read counting_keys "/k" 0).1 ≤ 0 + 11)
    × ((Etcd.read_all counting_keys "/k" 0).1 ≤ 0 + 11)
    × ((Etcd.write counting_keys "/k" "v" 0).1 ≤ 0 + 11)
    × ((Etcd.mkdir counting_keys "/k" 0).1 ≤ 0 + 11)
etcd-calls_bounded_example = etcd-calls_bounded counting_keys (λ w. w) each_counts "/k" "v" 0

abbrev blue : Node
blue = record { value = "blue"; nodes = [] }

third-Answers : Answers late_keys "/k" 2 2 blue 0
unfolding Etcd.is_unavailable error_text
third-Answers =
    after_failure 1 (foreign "unavailable") 2 1 0 blue refl refl
      (after_failure 0 (foreign "unavailable") 1 0 0 blue refl refl (at_once 0 0 blue refl))

read-Answers_example : Etcd.read late_keys "/k" 2 ≡ (ok "blue", 0)
read-Answers_example = read-Answers late_keys "/k" 2 2 0 blue third-Answers (omega arith)

consul_driver-IsTrimmedStore_example : IsTrimmedStore memory_kv find
consul_driver-IsTrimmedStore_example =
    consul_driver-IsTrimmedStore memory_kv find memory_kv-IsClient

all-Fails : (n : ℕ) → Fails lost_kv "k" n tt
all-Fails zero = no_more tt
all-Fails (suc n) = once_more n (foreign "EOF") tt refl (all-Fails n)

lost-Unreached : Unreached lost_kv "k" tt
unfolding Consul.is_transient
lost-Unreached = record {
  error = foreign "EOF";
  fails = refl;
  transient = refl;
  again = all-Fails 10;
}

read-Unreached_example : (Consul.read lost_kv "/k" tt).0 ≡ err (sentinel key_not_found)
unfolding Consul.process_key trim_prefix
read-Unreached_example = read-Unreached lost_kv "/k" tt lost-Unreached

etcd-known : init_helper "etcd" ≡ ok etcd_type
unfolding init_helper
etcd-known = refl

etcd-named : is_empty "etcd" ≡ false
unfolding is_empty
etcd-named = refl

-- The clients answer whatever the address is.
etcd_client : String → Entries → Result (Etcd.KeysApi Entries) × Entries
etcd_client address w = (ok memory_keys, w)

consul_client : String → Entries → Result (Consul.KvApi Entries) × Entries
consul_client address w = (ok memory_kv, w)

new_state_driver-once_example :
    ((i : Instance Entries) × ((new_state_driver etcd_client consul_client "etcd"
          (some "etcd://store")
          ([], none)).1.1
        ≡ some i))
    × ((name : String) (config : Option String)
        → (e : Error) × (new_state_driver etcd_client consul_client name config
              (new_state_driver etcd_client consul_client "etcd" (some "etcd://store") ([], none)).1
            ≡ (
              err e,
              (new_state_driver etcd_client consul_client "etcd"
                  (some "etcd://store")
                  ([], none)).1,
            )))
new_state_driver-once_example =
    new_state_driver-once etcd_client consul_client "etcd" "etcd://store" etcd_type [] etcd-named
      etcd-known

-- The pair of "a" changed, "b" is gone and "c" is new.
abbrev cached : List Consul.KvPair
cached =
    record { key = "a"; value = some "1"; modify_index = 1 }
    ∷ record { key = "b"; value = some "1"; modify_index = 2 }
    ∷ []

abbrev sent : List Consul.KvPair
sent =
    record { key = "a"; value = some "2"; modify_index = 3 }
    ∷ record { key = "c"; value = some "1"; modify_index = 4 }
    ∷ []

sent_unique : has_unique_keys sent ≡ true
unfolding has_unique_keys is_seen
sent_unique = refl

sent-IsConsistent : IsConsistent cached sent
unfolding IsConsistent seen
sent-IsConsistent key old new o n index = ground arith

consul_round-seen_example : seen (consul_round sent cached).0 "b" ≡ seen sent "b"
consul_round-seen_example = consul_round-seen sent cached "b" sent_unique sent-IsConsistent
