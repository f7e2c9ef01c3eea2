-- ===== src/Auth/Ldap/Groups.antt =====
-- The invariant of the loop of `getUserGroups` of auth/ldap/ldap.go.
use auth_proxy.Prelude.{
  Bool, true, false, not, ◌==◌, ◌||◌, ◌&&◌, ◌≡◌, ◌⊎◌, refl, sym, subst, String, List, ◌∷◌, select,
  arith, eq_iff, eq_refl, Bool-cases, inl, inr,
}
use auth_proxy.Auth.Ldap.{has, queued}
use auth_proxy.Auth.Ldap.Directory.{Belongs, nested, unique, has-append, has-select}

has-queued :
    (groups processed found : List String) (g : String)
    → has (queued groups processed found) g ≡ (has groups g || has found g && not (has processed g))
unfolding queued
has-queued groups processed found g =
    rw (has-append groups (select (λ h. not (has processed h)) found) g)
      (rw (has-select (λ h. not (has processed h)) found g) refl)

-- A queued group waited already or is a sub-group.
queued-either :
    (groups processed found : List String) (h : String)
    → has (queued groups processed found) h ≡ true
    → (has groups h ≡ true) ⊎ (has found h ≡ true)
queued-either groups processed found h q = elim (Bool-cases (has groups h)) [
  | inl waiting ↦ inl waiting
  | inr not_waiting ↦ elim (Bool-cases (has found h)) [
    | inl member ↦ inr member
    | inr stranger ↦ cc (rw (has-queued groups processed found h, not_waiting, stranger) at q)
  ]
]

-- A sub-group is queued, unless it is processed.
queued-found :
    (groups processed found : List String) (h : String)
    → has found h ≡ true
    → (has (queued groups processed found) h || has processed h) ≡ true
queued-found groups processed found h m =
    rw (has-queued groups processed found h, m) (taut (has groups h) (has processed h))
  where
    taut : (a b : Bool) → ((a || true && not b) || b) ≡ true
    taut true b = refl
    taut false true = refl
    taut false false = refl

-- A group that waited is processed now or waits still.
queued-waits :
    (g h : String) (groups processed found : List String)
    → (has (g ∷ groups) h || has processed h) ≡ true
    → (has (queued groups (g ∷ processed) found) h || has (g ∷ processed) h) ≡ true
unfolding has
queued-waits g h groups processed found q =
    rw (has-queued groups (g ∷ processed) found h)
      (taut (has groups h) (g == h) (has processed h) (has found h) q)
  where
    taut : (a b c d : Bool) → ((b || a) || c) ≡ true → ((a || d && not (b || c)) || (b || c)) ≡ true
    taut true b c d q = refl
    taut false true c d q = ground arith
    taut false false true d q = ground arith
    taut false false false d q = cc

module _ (member_of : String → List String) (names first : List String) where
  -- The invariant of the loop, over the queue and the processed groups.
  pub record Searching (groups processed : List String) : Type 0 where
    pub named : (g : String) → has groups g ≡ true → has names g ≡ true
    pub waits : (g : String) → has groups g ≡ true → Belongs member_of first g
    pub sound : (g : String) → has processed g ≡ true → Belongs member_of first g
    pub starts : (g : String) → has first g ≡ true → (has groups g || has processed g) ≡ true
    pub closed :
        (g h : String)
        → has processed g ≡ true
        → has (member_of g) h ≡ true
        → (has groups h || has processed h) ≡ true
    pub once : unique processed ≡ true

  or_same :
      (g h : String) (groups processed : List String)
      → has processed g ≡ true
      → (has (g ∷ groups) h || has processed h) ≡ true
      → (has groups h || has processed h) ≡ true
  unfolding has
  or_same g h groups processed old either = elim (Bool-cases (g == h)) [
    | inl same ↦
        let old' = subst (λ x. has processed x ≡ true) ((eq_iff g h).0 same) old in ground arith
    | inr other ↦ let either' = (rw other at either) in ground arith
  ]

  -- A group that was processed already is passed over.
  pub Searching-skip :
      (g : String) (groups processed : List String)
      → has processed g ≡ true
      → Searching (g ∷ groups) processed
      → Searching groups processed
  unfolding has
  Searching-skip g groups processed old s = record {
    named = λ h q. s.named h (later h q);
    waits = λ h q. s.waits h (later h q);
    sound = s.sound;
    starts = λ h f. or_same g h groups processed old (s.starts h f);
    closed = λ x h p m. or_same g h groups processed old (s.closed x h p m);
    once = s.once;
  }
    where
      later : (h : String) → has groups h ≡ true → has (g ∷ groups) h ≡ true
      later h q = elim (Bool-cases (g == h)) [ inl same ↦ rw same refl | inr other ↦ rw other q ]

  -- A new group is processed, and its sub-groups that are new are queued.
  pub Searching-take :
      (g : String) (groups processed : List String)
      → has processed g ≡ false
      → ((h : String) → has (member_of g) h ≡ true → has names h ≡ true)
      → Searching (g ∷ groups) processed
      → Searching (queued groups (g ∷ processed) (member_of g)) (g ∷ processed)
  unfolding has unique
  Searching-take g groups processed new below s = record {
    named = λ h q. elim (queued-either groups (g ∷ processed) (member_of g) h q) [
      | inl r ↦ s.named h (later h r)
      | inr m ↦ below h m
    ];
    waits = λ h q. elim (queued-either groups (g ∷ processed) (member_of g) h q) [
      | inl r ↦ s.waits h (later h r)
      | inr m ↦ nested g h first_one m
    ];
    sound = λ h p. elim (Bool-cases (g == h)) [
      | inl same ↦ subst (Belongs member_of first) ((eq_iff g h).0 same) first_one
      | inr other ↦ s.sound h (rw other at p)
    ];
    starts = λ h f. queued-waits g h groups processed (member_of g) (s.starts h f);
    closed = λ x h p m. elim (Bool-cases (g == x)) [
      | inl same ↦
          let m' = subst (λ y. has (member_of y) h ≡ true) (sym ((eq_iff g x).0 same)) m in
          queued-found groups (g ∷ processed) (member_of g) h m'
      | inr other ↦ queued-waits g h groups processed (member_of g) (s.closed x h (rw other at p) m)
    ];
    once = rw new s.once;
  }
    where
      first_one : Belongs member_of first g
      first_one = s.waits g (rw (eq_refl g) refl)

      later : (h : String) → has groups h ≡ true → (g == h || has groups h) ≡ true
      later h q = elim (Bool-cases (g == h)) [ inl same ↦ rw same refl | inr other ↦ rw other q ]
