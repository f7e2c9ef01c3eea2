-- ===== src/Db/Keys.antt =====
-- db/constants.go: the keys of the store.
pub mod Apart
use auth_proxy.Prelude.{String, List, [], ◌∷◌}
use auth_proxy.Text.Paths.{path_join}
use auth_proxy.Types.{auth_proxy_dir}

abbrev pub root_local_users : String
root_local_users = "local_users"

abbrev pub root_ldap_configuration : String
root_ldap_configuration = "ldap_configuration"

abbrev pub root_token_signing_key : String
root_token_signing_key = "token_signing_key"

join_all : String → List String → String
join_all str [] = str
join_all str (s ∷ strs) = join_all (path_join str s) strs

-- `GetPath`
unfoldable pub get_path : List String → String
unfolding join_all path_join
get_path strs = join_all auth_proxy_dir strs

-- `GetPath(RootLocalUsers, username)`
unfoldable pub local_user_key : String → String
unfolding get_path
local_user_key username = get_path (root_local_users ∷ username ∷ [])
