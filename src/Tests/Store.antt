-- ===== src/Tests/Store.antt =====
-- A key-value store in memory, and the proof that it keeps the laws of `IsStore`.
use auth_proxy.Prelude.{
  false, ◌≡◌, refl, String, append, List, [], ◌∷◌, Option, none, some, ◌==◌, eq_iff, eq_refl,
  Bool-cases, inl, inr, if◌then◌else◌,
}
use auth_proxy.Errors.{sentinel, key_not_found, Result, ok, err}
use auth_proxy.Text.{has_prefix}
use auth_proxy.Driver.{StateDriver}
use auth_proxy.Driver.Laws.{IsStore}

abbrev pub Entries : Type 0
Entries = List (String × String)

unfoldable pub find : Entries → String → Option String
find [] key = none
find ((k, v) ∷ es) key = if k == key then some v else find es key

unfoldable pub without : Entries → String → Entries
without [] key = []
without ((k, v) ∷ es) key = let rest = without es key in if k == key then rest else (k, v) ∷ rest

unfoldable pub values_below : Entries → String → List String
values_below [] dir = []
values_below ((k, v) ∷ es) dir =
    let rest = values_below es dir in if has_prefix k (append dir "/") then v ∷ rest else rest

abbrev found : Option String → Result String
found (some v) = ok v
found none = err (sentinel key_not_found)

abbrev pub memory : StateDriver Entries
memory = record {
  read = λ k w. (found (find w k), w);
  read_all = λ dir w. (ok (values_below w dir), w);
  write = λ k v w. (ok tt, (k, v) ∷ w);
  clear = λ k w. (ok tt, without w k);
}

found-ok : (o : Option String) (v : String) → found o ≡ ok v → o ≡ some v
found-ok (some u) v h = cc
found-ok none v h = cc

found-err : (o : Option String) → found o ≡ err (sentinel key_not_found) → o ≡ none
found-err (some u) h = cc
found-err none h = refl

find-without : (es : Entries) (k : String) → find (without es k) k ≡ none
unfolding find without
find-without [] k = refl
find-without ((l, v) ∷ es) k = elim (Bool-cases (l == k)) [
  | inl same ↦ rw same (find-without es k)
  | inr other ↦ rw other (rw other (find-without es k))
]

find-without_other :
    (es : Entries) (k j : String) → (k == j) ≡ false → find (without es k) j ≡ find es j
unfolding find without
find-without_other [] k j h = refl
find-without_other ((l, v) ∷ es) k j h = elim (Bool-cases (l == k)) [
  | inl same ↦ rw same (rw ((eq_iff l k).0 same, h) (find-without_other es k j h))
  | inr other ↦ rw other (rw (find-without_other es k j h) refl)
]

pub memory-IsStore : IsStore memory find
unfolding find
memory-IsStore = record {
  read_ok = λ k v w h. found-ok (find w k) v h;
  read_missing = λ k w h. found-err (find w k) h;
  read_keeps = λ k w j. refl;
  read_all_keeps = λ k w j. refl;
  write_ok = λ k v w h. rw (eq_refl k) refl;
  write_keeps = λ k v w j h. rw h refl;
  clear_ok = λ k w h. find-without w k;
  clear_keeps = λ k w j h. find-without_other w k j h;
}
