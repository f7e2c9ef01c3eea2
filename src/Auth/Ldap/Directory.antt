-- ===== src/Auth/Ldap/Directory.antt =====
-- A directory of groups that does not change while auth/ldap/ldap.go searches it, and how much of it is
-- left to search.
use auth_proxy.Prelude.{
  ℕ, ◌+◌, ◌≤◌, Bool, true, false, not, ◌==◌, ◌||◌, ◌&&◌, ◌≡◌, refl, sym, subst, ap, String, List,
  [], ◌∷◌, ◌++◌, select, length, arith, eq_iff, Bool-cases, inl, inr, if◌then◌else◌,
}
use auth_proxy.Errors.{ok}
use auth_proxy.Auth.Ldap.{Entry, Ldap, group_request, has}

-- The server answers each search for one of the groups `names` with its one entry, whose groups are
-- `member_of` and stand among `names` too.
pub record IsDirectory {W : Type 0} (ldap : Ldap W) (conn : ldap.Conn)
    (member_of : String → List String) (names : List String) : Type 0 where
  pub answers :
      (g : String) (w : W)
      → has names g ≡ true
      → (entry : Entry) × (w' : W) × (ldap.search conn (group_request g) w ≡ (ok (entry ∷ []), w'))
        × (entry.member_of ≡ member_of g)
  pub closed : (g h : String) → has names g ≡ true → has (member_of g) h ≡ true → has names h ≡ true

-- The groups of a user: those of the user's entry, and those that a group of the user is a member of.
pub data Belongs (member_of : String → List String) (first : List String) : String → Type 0 where
  directly : (g : String) → has first g ≡ true → Belongs member_of first g
  nested :
      (g h : String)
      → Belongs member_of first g
      → has (member_of g) h ≡ true
      → Belongs member_of first h

-- No name twice.
unfoldable pub unique : List String → Bool
unique [] = true
unique (g ∷ gs) = not (has gs g) && unique gs

pub has-append : (xs ys : List String) (g : String) → has (xs ++ ys) g ≡ (has xs g || has ys g)
unfolding has
has-append [] ys g = refl
has-append (x ∷ xs) ys g = elim (Bool-cases (x == g)) [
  | inl same ↦ rw same refl
  | inr other ↦ rw other (has-append xs ys g)
]

and_false : (b : Bool) → (b && false) ≡ false
and_false true = refl
and_false false = refl

pub has-select :
    (p : String → Bool) (xs : List String) (g : String) → has (select p xs) g ≡ (has xs g && p g)
unfolding has select
has-select p [] g = refl
has-select p (x ∷ xs) g = elim (Bool-cases (x == g)) [
  | inl same ↦ elim (Bool-cases (p x)) [
    | inl kept ↦
        let kept' = subst (λ y. p y ≡ true) ((eq_iff x g).0 same) kept in
        rw (kept, same) (rw kept' refl)
    | inr dropped ↦
        let dropped' = subst (λ y. p y ≡ false) ((eq_iff x g).0 same) dropped in
        rw (dropped, same) (rw (has-select p xs g, dropped', and_false (has xs g)) refl)
  ]
  | inr other ↦ elim (Bool-cases (p x)) [
    | inl kept ↦ rw (kept, other) (has-select p xs g)
    | inr dropped ↦ rw (dropped, other) (has-select p xs g)
  ]
]

pub length-append : {A : Type 0} (xs ys : List A) → length (xs ++ ys) ≡ length xs + length ys
length-append [] ys = omega arith
length-append (x ∷ xs) ys = omega (arith, length-append xs ys)

pub length-select : {A : Type 0} (p : A → Bool) (xs : List A) → length (select p xs) ≤ length xs
unfolding select
length-select p [] = omega arith
length-select p (x ∷ xs) = elim (Bool-cases (p x)) [
  | inl kept ↦ rw kept (omega (arith, length-select p xs))
  | inr dropped ↦ rw dropped (omega (arith, length-select p xs))
]

module _ (member_of : String → List String) where
  -- How many entries the searches that are left can add to the queue.
  unfoldable pub pending : List String → List String → ℕ
  pending [] processed = 0
  pending (u ∷ us) processed =
      let rest = pending us processed in
      if has processed u then rest else length (member_of u) + rest

  pub pending-cons :
      (us processed : List String) (g : String) → pending us (g ∷ processed) ≤ pending us processed
  unfolding pending has
  pending-cons [] processed g = omega arith
  pending-cons (u ∷ us) processed g = elim (Bool-cases (has processed u)) [
    | inl old ↦ elim (Bool-cases (g == u)) [
      | inl same ↦ rw (old, same) (omega (arith, pending-cons us processed g))
      | inr other ↦ rw (old, other) (omega (arith, pending-cons us processed g))
    ]
    | inr new ↦ elim (Bool-cases (g == u)) [
      | inl same ↦ rw (new, same) (omega (arith, pending-cons us processed g))
      | inr other ↦ rw (new, other) (omega (arith, pending-cons us processed g))
    ]
  ]

  pub pending-falls :
      (us processed : List String) (g : String)
      → has us g ≡ true
      → has processed g ≡ false
      → pending us (g ∷ processed) + length (member_of g) ≤ pending us processed
  unfolding pending has
  pending-falls [] processed g named new = cc
  pending-falls (u ∷ us) processed g named new = elim (Bool-cases (u == g)) [
    | inl same ↦
        let e = (eq_iff u g).0 same in
        let new' = subst (λ x. has processed x ≡ false) (sym e) new in
        let size = ap (λ x. length (member_of x)) e in
        let eq : (g == u) ≡ true = (eq_iff g u).1 (sym e) in
        rw (new', eq) (let rest = pending-cons us processed g in omega arith)
    | inr other ↦
        let named' : has us g ≡ true = (rw other at named) in
        let rest = pending-falls us processed g named' new in ground arith
  ]
