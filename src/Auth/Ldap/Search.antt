-- ===== src/Auth/Ldap/Search.antt =====
-- `getUserGroups` of auth/ldap/ldap.go ends, and returns the groups that the user belongs to.
use auth_proxy.Prelude.{
  ℕ, zero, suc, ◌+◌, ◌≤◌, true, ◌≡◌, ◌↔◌, refl, String, List, [], ◌∷◌, not, select, length, arith,
  eq_refl, Bool-cases, inl, inr,
}
use auth_proxy.Errors.{ok}
use auth_proxy.Auth.Ldap.{
  Ldap, has, queued, sub_groups, search_group, search_groups, get_user_groups,
}
use auth_proxy.Auth.Ldap.Directory.{
  IsDirectory, Belongs, directly, nested, unique, length-append, length-select, pending,
  pending-falls,
}
use auth_proxy.Auth.Ldap.Groups.{Searching, Searching-skip, Searching-take}

module _ {W : Type 0} (ldap : Ldap W) (conn : ldap.Conn) (member_of : String → List String)
    (names : List String) (directory : IsDirectory ldap conn member_of names) where
  search_group-answers :
      (g : String) (w : W)
      → has names g ≡ true
      → (w' : W) × (search_group ldap conn g w ≡ (ok (member_of g), w'))
  unfolding search_group sub_groups
  search_group-answers g w named =
      let (entry, w', answer, same) = directory.answers g w named in (w', rw (answer, same) refl)

  queued-length :
      (groups processed : List String) (g : String)
      → length (queued groups (g ∷ processed) (member_of g)) ≤ length groups + length (member_of g)
  unfolding queued
  queued-length groups processed g = omega (
    arith,
    length-append groups (select (λ h. not (has (g ∷ processed) h)) (member_of g)),
    length-select (λ h. not (has (g ∷ processed) h)) (member_of g),
  )

  -- Each round takes a group off the queue, and a group's sub-groups are added once only.
  search_ends :
      (first : List String) (fuel : ℕ) (groups processed : List String) (w : W)
      → Searching member_of names first groups processed
      → length groups + pending member_of names processed ≤ fuel
      → (result : List String) × (w' : W) × (search_groups ldap conn fuel groups processed w
          ≡ (ok result, w'))
        × Searching member_of names first [] result
  unfolding search_groups
  search_ends first fuel [] processed w s enough = (processed, w, refl, s)
  search_ends first zero (g ∷ groups) processed w s enough = absurd (omega arith)
  search_ends first (suc fuel) (g ∷ groups) processed w s enough =
      elim (Bool-cases (has processed g)) [
        | inl old ↦
            let (result, w', ends, s') =
              search_ends first fuel groups processed w
                (Searching-skip member_of names first g groups processed old s) (omega arith) in
            (result, w', rw (search_groups, old) ends, s')
        | inr new ↦
            let named = s.named g (rw (has, eq_refl g) refl) in
            let (w1, answer) = search_group-answers g w named in
            let falls = pending-falls member_of names processed g named new in
            let size = queued-length groups processed g in
            let (result, w', ends, s') =
              search_ends first fuel (queued groups (g ∷ processed) (member_of g)) (g ∷ processed)
                w1
                (Searching-take member_of names first g groups processed new
                  (λ h. directory.closed g h named) s)
                (omega arith) in
            (result, w', rw (search_groups, new, answer) ends, s')
      ]

  Searching-start :
      (first : List String)
      → ((g : String) → has first g ≡ true → has names g ≡ true)
      → Searching member_of names first first []
  unfolding has unique
  Searching-start first known = record {
    named = known;
    waits = directly;
    sound = λ g h. cc;
    starts = λ g f. rw f refl;
    closed = λ g h p m. cc;
    once = refl;
  }

  -- A group that the user belongs to is in the result.
  complete :
      (first result : List String)
      → Searching member_of names first [] result
      → (g : String) → Belongs member_of first g
      → has result g ≡ true
  unfolding has
  complete first result s g (directly _ h) = s.starts g h
  complete first result s g (nested g' _ b m) = s.closed g' g (complete first result s g' b) m

  -- If the user's entry names some groups, the server answers for each group of a directory that holds
  -- them, and there is fuel for those groups and for the members that the directory's groups name,
  -- then `getUserGroups` ends without an error, and its result holds no group twice and exactly the
  -- groups that the user belongs to.
  pub get_user_groups-Belongs :
      (first : List String) (fuel : ℕ) (w : W)
      → 1 ≤ length first
      → ((g : String) → has first g ≡ true → has names g ≡ true)
      → length first + pending member_of names [] ≤ fuel
      → (result : List String) × (w' : W) × (get_user_groups ldap conn fuel first w
          ≡ (ok result, w'))
        × (unique result ≡ true)
        × ((g : String) → (has result g ≡ true) ↔ Belongs member_of first g)
  unfolding get_user_groups
  get_user_groups-Belongs [] fuel w some_group known enough = absurd (omega arith)
  get_user_groups-Belongs (g ∷ groups) fuel w some_group known enough =
      let (result, w', ends, s) =
        search_ends (g ∷ groups) fuel (g ∷ groups) [] w (Searching-start (g ∷ groups) known)
          enough in
      (result, w', ends, s.once, λ h. (s.sound h, complete (g ∷ groups) result s h))
