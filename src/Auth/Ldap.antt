-- ===== src/Auth/Ldap.antt =====
-- auth/ldap/ldap.go: authentication against an LDAP server, Active Directory.
--
-- The record `Ldap` is go-ldap's client. Its answers are the server's, so each may depend on the state
-- of the world and change it.
pub mod Directory
pub mod Groups
pub mod Search
pub mod Success
pub mod AfterAdding
pub mod Preserving
use auth_proxy.Prelude.{
  ℕ, zero, suc, Bool, true, false, not, ◌==◌, ◌||◌, String, append, List, [], ◌∷◌, ◌++◌, select,
  if◌then◌else◌,
}
use auth_proxy.Errors.{
  Error, sentinel, errorf, panic, ldap_access_denied, ldap_groups_not_found, ldap_multiple_entries,
  ldap_connection_failed, user_not_found, error_text, Result, ok, err,
}
use auth_proxy.Exec.{Exec, pure, throw, lift, attempt, otherwise, ◌>>=◌, ◌>>◌}
use auth_proxy.Text.{is_empty, itoa}
use auth_proxy.Types.{LdapConfiguration}
use auth_proxy.Env.{Env}
use auth_proxy.Crypto.{decrypt}
use auth_proxy.Db.LdapConfigurations.{get_ldap_configuration}

-- `ldap.Entry`: its `DN`, and its values of `memberOf`, the one attribute that is asked for.
pub record Entry : Type 0 where
  pub dn : String
  pub member_of : List String

pub data Scope : Type 0 where
  whole_subtree base_object : Scope

-- What differs between the program's uses of `ldap.SearchRequest`.
pub record SearchRequest : Type 0 where
  pub base_dn : String
  pub scope : Scope
  pub filter : String

-- `tls.Config`
pub record TlsConfig : Type 0 where
  pub server_name : String
  pub insecure_skip_verify : Bool

-- `ldap.Dial` over tcp, and the methods of `ldap.Conn`; a search returns its `Entries`.
pub record Ldap (W : Type 0) : Type 1 where
  pub Conn : Type 0
  pub dial : String → Exec W Conn
  pub start_tls : Conn → TlsConfig → Exec W (Unit {0})
  pub bind : Conn → String → String → Exec W (Unit {0})
  pub search : Conn → SearchRequest → Exec W (List Entry)
  pub close : Conn → W → W

-- The request of `Authenticate` for the user's entry.
unfoldable pub user_request : String → String → SearchRequest
user_request base_dn username = record {
  base_dn = base_dn;
  scope = whole_subtree;
  filter = append "(&(objectClass=user)(sAMAccountName=" (append username "))");
}

-- The request of `getUserGroups` for a group's own entry.
unfoldable pub group_request : String → SearchRequest
group_request ad_group = record {
  base_dn = ad_group;
  scope = base_object;
  filter = "(objectClass=group)";
}

-- `processedGroups[g]`: the map is the list of its keys, the last one first. As well, whether a list
-- has a name.
unfoldable pub has : List String → String → Bool
has [] g = false
has (p ∷ ps) g = p == g || has ps g

-- The queue once the sub-groups of a group that is processed are added.
unfoldable pub queued : List String → List String → List String → List String
unfolding has
queued groups processed found = groups ++ select (λ g. not (has processed g)) found

-- The result of the model when the fuel runs out, where the program would go on.
abbrev pub out_of_fuel : Error
out_of_fuel = panic "the search of groups goes on"

abbrev pub not_reached : Error → Error
not_reached e =
    errorf (append (error_text (sentinel ldap_connection_failed)) (append ", " (error_text e)))

module _ {W : Type 0} (ldap : Ldap W) where
  open ldap use {Conn, dial, start_tls, bind, search, close}

  -- The `memberOf` values of a group, or the end of `getUserGroups`; the first entry is read whether
  -- there is one or not.
  unfoldable pub sub_groups : Result (List Entry) → Exec W (List String)
  sub_groups (err e) = throw (sentinel ldap_access_denied)
  sub_groups (ok []) = throw (panic "runtime error: index out of range")
  sub_groups (ok (entry ∷ [])) = pure entry.member_of
  sub_groups (ok (entry ∷ second ∷ entries)) = throw (sentinel ldap_multiple_entries)

  -- The sub-groups of a group.
  unfoldable pub search_group : Conn → String → Exec W (List String)
  unfolding group_request sub_groups
  search_group conn ad_group = do r ← attempt (search conn (group_request ad_group)); sub_groups r

  -- The loop of `getUserGroups`, over the queue and the processed groups.
  unfoldable pub search_groups : Conn → ℕ → List String → List String → Exec W (List String)
  unfolding has queued
  search_groups conn fuel [] processed = pure processed
  search_groups conn zero (ad_group ∷ groups) processed = throw out_of_fuel
  search_groups conn (suc fuel) (ad_group ∷ groups) processed = elim (has processed ad_group) [
    | true ↦ search_groups conn fuel groups processed
    | false ↦ search_group conn ad_group >>= λ found.
        search_groups conn fuel (queued groups (ad_group ∷ processed) found) (ad_group ∷ processed)
  ]

  -- `getUserGroups`; the order of the result is that of a map, which Go leaves open.
  unfoldable pub get_user_groups : Conn → ℕ → List String → Exec W (List String)
  get_user_groups conn fuel [] = throw (sentinel ldap_groups_not_found)
  get_user_groups conn fuel (ad_group ∷ groups) = search_groups conn fuel (ad_group ∷ groups) []

  -- The TLS settings of `connect`.
  unfoldable pub upgrade : LdapConfiguration → Conn → Exec W (Unit {0})
  upgrade config conn =
      if not (is_empty config.tls_cert_issued_to)
      then start_tls conn
          (record { server_name = config.tls_cert_issued_to; insecure_skip_verify = false })
      else if config.insecure_skip_verify
      then start_tls conn (record { server_name = ""; insecure_skip_verify = true })
      else throw
          (errorf "InsecureSkipVerify or TLSCertIssuedTo must be provided for TLS/SSL connection")

  -- `connect`; a connection that cannot be upgraded is not closed.
  unfoldable pub connect : LdapConfiguration → Exec W Conn
  unfolding upgrade
  connect config = do
    dialed ← attempt (dial (append config.server (append ":" (itoa config.port))))
    conn ← otherwise dialed (λ e. throw (not_reached e))
    if not config.start_tls then pure conn else do
      upgraded ← attempt (upgrade config conn)
      otherwise upgraded (λ e. throw (not_reached e))
      pure conn

  -- An error of the server becomes `ErrLDAPAccessDenied`.
  unfoldable pub or_denied : {A : Type 0} → Exec W A → Exec W A
  or_denied call = do r ← attempt call; otherwise r (λ e. throw (sentinel ldap_access_denied))

  unfoldable pub single_entry : List Entry → Exec W Entry
  single_entry [] = throw (sentinel user_not_found)
  single_entry (entry ∷ []) = pure entry
  single_entry (entry ∷ second ∷ entries) = throw (sentinel ldap_multiple_entries)

  -- What `Manager.Authenticate` does between `connect` and `Close`.
  unfoldable pub session :
      LdapConfiguration → ℕ → String → String → Conn → Exec W (String × List String)
  unfolding user_request or_denied single_entry get_user_groups
  session config fuel username password conn = do
    or_denied (bind conn config.service_account_dn config.service_account_password)
    entries ← or_denied (search conn (user_request config.base_dn username))
    entry ← single_entry entries
    or_denied (bind conn entry.dn password)
    groups ← get_user_groups conn fuel entry.member_of
    pure (entry.dn, groups)

  -- A deferred `Close` runs whatever the result is.
  unfoldable pub closing : Conn → Exec W (String × List String) → Exec W (String × List String)
  closing conn body w = let (r, w') = body w in (r, close conn w')

  -- `Manager.Authenticate`
  unfoldable pub manager_authenticate :
      LdapConfiguration → ℕ → String → String → Exec W (String × List String)
  unfolding connect closing session
  manager_authenticate config fuel username password = do
    conn ← connect config
    closing conn (session config fuel username password conn)

-- `Authenticate`; `GetLdapConfiguration` without an error returns a configuration.
unfoldable pub ldap_authenticate :
    (env : Env) → Ldap env.World → ℕ → String → String → Exec env.World (String × List String)
unfolding manager_authenticate
ldap_authenticate env ldap fuel username password = do
  cfg ← get_ldap_configuration env
  service_account_password ← decrypt env cfg.service_account_password
  manager_authenticate ldap (record cfg { service_account_password = service_account_password })
      fuel username password
