-- ===== src/State/Watching/Cache.antt =====
-- The cache of `channelConsulEvents` after a round.
use auth_proxy.Prelude.{
  Bool, true, false, not, ◌==◌, ◌&&◌, ◌≡◌, refl, sym, subst, ◌∙◌, String, List, [], ◌∷◌, none, some,
  nat_eq, select, eq_iff, eq_refl, Bool-cases, Option-cases, inl, inr, if◌then◌else◌,
}
use auth_proxy.State.Consul.{KvPair}
use auth_proxy.State.Watching.{seen, is_seen, remember, pair_received, pairs_received, consul_round}

-- No key twice.
unfoldable pub has_unique_keys : List KvPair → Bool
has_unique_keys [] = true
has_unique_keys (kv ∷ kvs) = not (is_seen kvs kv.key) && has_unique_keys kvs

-- A pair whose index is the same as before is the same pair.
unfoldable pub IsConsistent : List KvPair → List KvPair → Type 0
IsConsistent cache kvs =
    (key : String) (old new : KvPair)
    → seen cache key ≡ some old
    → seen kvs key ≡ some new
    → nat_eq old.modify_index new.modify_index ≡ true
    → old ≡ new

-- Selecting by the key.
seen-select :
    (p : String → Bool) (kvs : List KvPair) (key : String)
    → seen (select (λ kv. p kv.key) kvs) key ≡ (if p key then seen kvs key else none)
unfolding seen select
seen-select p [] key = elim (Bool-cases (p key)) [ inl is ↦ rw is refl | inr other ↦ rw other refl ]
seen-select p (kv ∷ kvs) key = elim (Bool-cases (kv.key == key)) [
  | inl same ↦
      let e = (eq_iff kv.key key).0 same in
      elim (Bool-cases (p key)) [
        | inl kept ↦ let kept' = subst (λ k. p k ≡ true) (sym e) kept in rw (kept', same, kept) refl
        | inr dropped ↦
            let dropped' = subst (λ k. p k ≡ false) (sym e) dropped in
            rw (dropped', dropped) (rw (seen-select p kvs key, dropped) refl)
      ]
  | inr other ↦ elim (Bool-cases (p kv.key)) [
    | inl kept ↦ rw (kept, other) (seen-select p kvs key)
    | inr dropped ↦ rw (dropped, other) (seen-select p kvs key)
  ]
]

other_swap : (a b : String) → (a == b) ≡ false → (b == a) ≡ false
other_swap a b h = elim (Bool-cases (b == a)) [
  | inl same ↦ cc (h, (eq_iff a b).1 (sym ((eq_iff b a).0 same)))
  | inr other ↦ other
]

seen-remember :
    (kv : KvPair) (cache : List KvPair) (key : String)
    → seen (remember kv cache) key ≡ (if kv.key == key then some kv else seen cache key)
unfolding seen remember
seen-remember kv cache key = elim (Bool-cases (kv.key == key)) [
  | inl same ↦ rw same refl
  | inr other ↦
      let flip = other_swap kv.key key other in
      rw other (rw (seen-select (λ k. not (k == kv.key)) cache key, flip) refl)
]

seen-is_seen : (kvs : List KvPair) (key : String) → is_seen kvs key ≡ false → seen kvs key ≡ none
unfolding seen is_seen
seen-is_seen [] key h = refl
seen-is_seen (kv ∷ kvs) key h = elim (Bool-cases (kv.key == key)) [
  | inl same ↦ let h' = (rw same at h) in cc h'
  | inr other ↦ rw other (seen-is_seen kvs key (rw other at h))
]

pair_received-seen :
    (kv : KvPair) (cache : List KvPair) (key : String)
    → ((old : KvPair)
        → seen cache kv.key ≡ some old
        → nat_eq old.modify_index kv.modify_index ≡ true
        → old ≡ kv)
    → seen (pair_received kv cache).0 key ≡ (if kv.key == key then some kv else seen cache key)
unfolding pair_received
pair_received-seen kv cache key agrees = elim (Option-cases (seen cache kv.key)) [
  | inl new ↦ rw (pair_received, new) (seen-remember kv cache key)
  | inr (old, found) ↦ elim (Bool-cases (nat_eq old.modify_index kv.modify_index)) [
    | inr changed ↦ rw (pair_received, found, changed) (seen-remember kv cache key)
    | inl same_index ↦ elim (Bool-cases (kv.key == key)) [
      | inl same ↦
          let found' = subst (λ k. seen cache k ≡ some old) ((eq_iff kv.key key).0 same) found in
          rw (pair_received, found, same_index, same, found', agrees old found same_index) refl
      | inr other ↦ rw (pair_received, found, same_index, other) refl
    ]
  ]
]

fresh : (a b : Bool) → (not a && b) ≡ true → (a ≡ false) × (b ≡ true)
fresh true b h = cc
fresh false b h = (refl, h)

-- A pair that was received agrees with the cache, if the list of which it is the first does.
first_agrees :
    (kv : KvPair) (kvs cache : List KvPair)
    → IsConsistent cache (kv ∷ kvs)
    → (old : KvPair) → seen cache kv.key ≡ some old
    → nat_eq old.modify_index kv.modify_index ≡ true
    → old ≡ kv
unfolding IsConsistent seen
first_agrees kv kvs cache same old found index =
    same kv.key old kv found (rw (eq_refl kv.key) refl) index

rest-IsConsistent :
    (kv : KvPair) (kvs cache : List KvPair)
    → is_seen kvs kv.key ≡ false
    → IsConsistent cache (kv ∷ kvs)
    → IsConsistent (pair_received kv cache).0 kvs
unfolding IsConsistent seen
rest-IsConsistent kv kvs cache new same key old now found sent index =
    elim (Bool-cases (kv.key == key)) [
      | inl this ↦
          let absent =
            seen-is_seen kvs key
              (subst (λ k. is_seen kvs k ≡ false) ((eq_iff kv.key key).0 this) new) in
          cc (absent, sent)
      | inr other ↦
          let kept = pair_received-seen kv cache key (first_agrees kv kvs cache same) in
          let kept' : seen (pair_received kv cache).0 key ≡ seen cache key = (rw other at kept) in
          same key old now (sym kept' ∙ found) (rw other sent) index
    ]

pairs_received-seen :
    (kvs cache : List KvPair) (key : String)
    → has_unique_keys kvs ≡ true
    → IsConsistent cache kvs
    → seen (pairs_received kvs cache).0 key
      ≡ (if is_seen kvs key then seen kvs key else seen cache key)
unfolding pairs_received is_seen has_unique_keys seen
pairs_received-seen [] cache key unique same = refl
pairs_received-seen (kv ∷ kvs) cache key unique same =
    let (new, unique') = fresh (is_seen kvs kv.key) (has_unique_keys kvs) unique in
    let rest =
      pairs_received-seen kvs (pair_received kv cache).0 key unique'
        (rest-IsConsistent kv kvs cache new same) in
    let first = pair_received-seen kv cache key (first_agrees kv kvs cache same) in
    elim (Bool-cases (kv.key == key)) [
      | inl this ↦
          let absent = subst (λ k. is_seen kvs k ≡ false) ((eq_iff kv.key key).0 this) new in
          rw (rest, absent, first, this) refl
      | inr other ↦ rw (rest, first, other) refl
    ]

-- If no key was received twice and a pair with the index of the cached pair of its key is that pair,
-- then the cache holds after the round exactly the pairs that were received.
pub consul_round-seen :
    (kvs cache : List KvPair) (key : String)
    → has_unique_keys kvs ≡ true
    → IsConsistent cache kvs
    → seen (consul_round kvs cache).0 key ≡ seen kvs key
unfolding consul_round
consul_round-seen kvs cache key unique same =
    let received = pairs_received-seen kvs cache key unique same in
    rw (seen-select (is_seen kvs) (pairs_received kvs cache).0 key)
      (elim (Bool-cases (is_seen kvs key)) [
        | inl sent ↦ rw (sent, received, sent) refl
        | inr gone ↦ rw (gone, seen-is_seen kvs key gone) refl
      ])
