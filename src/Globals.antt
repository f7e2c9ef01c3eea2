-- ===== src/Globals.antt =====
-- `GlobalMap` of common/utils.go: variables that can be read anywhere.
pub mod Laws
use auth_proxy.Prelude.{String, List, [], ◌∷◌, ◌==◌, if◌then◌else◌}
use auth_proxy.Errors.{sentinel, errorf, key_not_found, Result, ok, err}
use auth_proxy.Text.{is_empty}

abbrev pub GlobalMap : Type 0
GlobalMap = List (String × String)

store : GlobalMap → String → String → GlobalMap
store [] key value = (key, value) ∷ []
store ((k, v) ∷ g) key value =
    let rest = store g key value in if k == key then (key, value) ∷ g else (k, v) ∷ rest

-- `GlobalMap.Set`
unfoldable pub set : GlobalMap → String → String → Result GlobalMap
unfolding store
set g key value =
    if is_empty key then err (errorf "Cannot set globals: empty key") else ok (store g key value)

-- `GlobalMap.Get`
unfoldable pub get : GlobalMap → String → Result String
get [] key = err (sentinel key_not_found)
get ((k, v) ∷ g) key = if k == key then ok v else get g key
