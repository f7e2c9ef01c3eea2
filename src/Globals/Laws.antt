-- ===== src/Globals/Laws.antt =====
-- What is set in a `GlobalMap` is what is got.
use auth_proxy.Prelude.{
  false, ◌≡◌, refl, String, [], ◌∷◌, ◌==◌, eq_refl, eq_iff, Bool-cases, inl, inr,
}
use auth_proxy.Errors.{ok}
use auth_proxy.Text.{is_empty}
use auth_proxy.Globals.{GlobalMap, store, set, get}

get-store : (g : GlobalMap) (key value : String) → get (store g key value) key ≡ ok value
unfolding get store
get-store [] key value = rw (eq_refl key) refl
get-store ((k, v) ∷ g) key value = elim (Bool-cases (k == key)) [
  | inl same ↦ rw same (rw (eq_refl key) refl)
  | inr other ↦ rw other (rw other (get-store g key value))
]

get-store_other :
    (g : GlobalMap) (key value j : String)
    → (key == j) ≡ false
    → get (store g key value) j ≡ get g j
unfolding get store
get-store_other [] key value j apart = rw apart refl
get-store_other ((k, v) ∷ g) key value j apart = elim (Bool-cases (k == key)) [
  | inl same ↦ rw same (rw ((eq_iff k key).0 same, apart) refl)
  | inr other ↦ rw other (rw (get-store_other g key value j apart) refl)
]

-- A successful `Set` makes `Get` return the value under its key, and changes it under no other.
pub get-set :
    (g g' : GlobalMap) (key value : String)
    → set g key value ≡ ok g'
    → (get g' key ≡ ok value) × ((j : String) → (key == j) ≡ false → get g' j ≡ get g j)
unfolding set
get-set g g' key value h = elim (Bool-cases (is_empty key)) [
  | inl empty ↦ cc (rw empty at h)
  | inr named ↦
      let e : store g key value ≡ g' = cc (rw named at h) in
      rw (← e) (get-store g key value, get-store_other g key value)
]
