-- ===== src/State/Watching.antt =====
-- The changes that `WatchAll` and `WatchAllState` of state/etcdstatedriver.go report, and what
-- state/consulstatedriver.go does with each list of pairs that consul sends.
--
-- A channel is the list of what is sent to it, in order.
pub mod Cache
use auth_proxy.Prelude.{
  ℕ, zero, suc, Bool, true, false, not, ◌==◌, ◌||◌, String, List, [], ◌∷◌, ◌++◌, Option, none, some,
  nat_eq, select, if◌then◌else◌,
}
use auth_proxy.Errors.{Error, Result, ok, err}
use auth_proxy.Exec.{Exec, pure, throw, attempt, ◌>>=◌}
use auth_proxy.Driver.{Codec}
use auth_proxy.State.Consul.{KvPair, KvApi, process_key, is_transient}

-- The two values of a change, nil if there is none.
pub record ValueChange : Type 0 where
  pub curr : Option String
  pub prev : Option String

value_or_nil : String → Option String
value_or_nil value = if value == "" then none else some value

-- What `channelEtcdEvents` sends for a response of etcd, given the value of its node and, if there is
-- one, that of the node before.
unfoldable pub etcd_change : String → Option String → ValueChange
unfolding value_or_nil
etcd_change value none = record { curr = value_or_nil value; prev = none }
etcd_change value (some prev_value) = record {
  curr = value_or_nil value;
  prev = value_or_nil prev_value;
}

-- The pair of a key in `kvCache` or `kvsRcvd`.
unfoldable pub seen : List KvPair → String → Option KvPair
seen [] key = none
seen (kv ∷ kvs) key = let rest = seen kvs key in if kv.key == key then some kv else rest

unfoldable pub is_seen : List KvPair → String → Bool
is_seen [] key = false
is_seen (kv ∷ kvs) key = kv.key == key || is_seen kvs key

-- `kvCache[kv.Key] = kv`
unfoldable pub remember : KvPair → List KvPair → List KvPair
remember kv cache = kv ∷ select (λ old. not (old.key == kv.key)) cache

-- One round of the loop of `channelConsulEvents` over the pairs that were received.
unfoldable pub pair_received : KvPair → List KvPair → List KvPair × List ValueChange
unfolding seen remember
pair_received kv cache = elim (seen cache kv.key) [
  | none ↦ (remember kv cache, record { curr = kv.value; prev = none } ∷ [])
  | some kv_seen ↦
      if nat_eq kv_seen.modify_index kv.modify_index
      then (cache, [])
      else (remember kv cache, record { curr = kv.value; prev = kv_seen.value } ∷ [])
]

-- That loop.
unfoldable pub pairs_received : List KvPair → List KvPair → List KvPair × List ValueChange
unfolding pair_received
pairs_received [] cache = (cache, [])
pairs_received (kv ∷ kvs) cache =
    let (cache1, changes1) = pair_received kv cache in
    let (cache2, changes2) = pairs_received kvs cache1 in (cache2, changes1 ++ changes2)

-- The changes for the keys that are missing from what was received.
unfoldable pub deletions : List KvPair → List KvPair → List ValueChange
unfolding is_seen
deletions received [] = []
deletions received (kv ∷ cache) =
    let rest = deletions received cache in
    if is_seen received kv.key then rest else record { curr = none; prev = kv.value } ∷ rest

-- What `channelConsulEvents` does with a list of pairs: the cache afterwards, and what it sends.
unfoldable pub consul_round : List KvPair → List KvPair → List KvPair × List ValueChange
unfolding pairs_received deletions is_seen
consul_round kvs cache =
    let (cache1, changes) = pairs_received kvs cache in
    (select (λ kv. is_seen kvs kv.key) cache1, changes ++ deletions kvs cache1)

-- `kvCache` filled with the pairs that are there when a watch begins.
unfoldable pub filled : List KvPair → List KvPair → List KvPair
unfolding remember
filled [] cache = cache
filled (kv ∷ kvs) cache = filled kvs (remember kv cache)

-- A nil list is an empty one.
unfoldable pub pairs_of : Option (List KvPair) → List KvPair
pairs_of none = []
pairs_of (some kvs) = kvs

-- A watch of consul: the index to wait for, the cache, and the changes sent so far.
pub record Watch : Type 0 where
  pub wait_index : ℕ
  pub kv_cache : List KvPair
  pub changes : List ValueChange

-- The cache's side of a list of pairs.
unfoldable pub noticed : Watch → List KvPair → ℕ → Watch
unfolding consul_round
noticed watch kvs last_index =
    let (cache, changes) = consul_round kvs watch.kv_cache in
    record { wait_index = last_index; kv_cache = cache; changes = watch.changes ++ changes }

-- `list_since` is `List` with a `WaitIndex`, which also returns `LastIndex`; `pause` is a sleep of five
-- seconds.
module _ {W : Type 0} (api : KvApi W) (list_since : String → ℕ → Exec W (Option (List KvPair) × ℕ))
    (pause : W → W) where
  -- The end of a pass of the loop of consul's `WatchAll`.
  unfoldable pub listed_again : Watch → Result (Option (List KvPair) × ℕ) → Exec W Watch
  unfolding pairs_of noticed
  listed_again watch (ok (kvs, last_index)) = pure (noticed watch (pairs_of kvs) last_index)
  listed_again watch (err e) = if is_transient api e then (λ w. (ok watch, pause w)) else throw e

  -- So many passes of that loop, which ends by itself only with an error.
  unfoldable pub watch_passes : ℕ → String → Watch → Exec W Watch
  unfolding listed_again
  watch_passes zero base_key watch = pure watch
  watch_passes (suc n) base_key watch = do
    r ← attempt (list_since base_key watch.wait_index)
    next ← listed_again watch r
    watch_passes n base_key next

  -- `WatchAll` of consul, after so many passes.
  unfoldable pub watch_all : ℕ → String → Exec W Watch
  unfolding process_key filled
  watch_all passes base_key = do
    first ← list_since (process_key base_key) 0
    watch_passes passes (process_key base_key)
        (record { wait_index = first.1; kv_cache = filled (pairs_of first.0) []; changes = [] })

-- `types.WatchState`
pub record WatchState (A : Type 0) : Type 0 where
  pub curr : Option A
  pub prev : Option A

module _ {A : Type 0} (c : Codec A) where
  state_of : Option String → Result (Option A)
  state_of none = ok none
  state_of (some value) = elim (c.unmarshal value) [ ok a ↦ ok (some a) | err e ↦ err e ]

  with_prev : Option A → Result (Option A) → Result (WatchState A)
  with_prev curr (ok prev) = ok (record { curr = curr; prev = prev })
  with_prev curr (err e) = err e

  state_change : Result (Option A) → Option String → Result (WatchState A)
  unfolding state_of with_prev
  state_change (ok curr) prev = with_prev curr (state_of prev)
  state_change (err e) prev = err e

  -- `channelStateEvents`: what it sends for some changes, and the error that ends it, if one does.
  unfoldable pub state_events : List ValueChange → List (WatchState A) × Option Error
  unfolding state_change state_of
  state_events [] = ([], none)
  state_events (change ∷ changes) =
      let (states, end) = state_events changes in
      elim (state_change (state_of change.curr) change.prev) [
        | ok state ↦ (state ∷ states, end)
        | err e ↦ ([], some e)
      ]
