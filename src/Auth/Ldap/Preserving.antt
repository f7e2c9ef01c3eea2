-- ===== src/Auth/Ldap/Preserving.antt =====
-- LDAP authentication, and the entry of the built-in administrator.
use auth_proxy.Prelude.{ℕ, zero, suc, not, Bool-cases, inl, inr, String, append, List, [], ◌∷◌}
use auth_proxy.Errors.{Result, ok, err, sentinel, ldap_access_denied}
use auth_proxy.Exec.{Exec}
use auth_proxy.Exec.Preserves.{
  Preserves, Preserves-pure, Preserves-throw, Preserves-attempt, Preserves-if, Preserves-otherwise,
  Preserves-bind, Preserves-then,
}
use auth_proxy.Text.{is_empty, itoa}
use auth_proxy.Types.{LdapConfiguration}
use auth_proxy.Env.{Env}
use auth_proxy.Env.Sparing.{Sparing}
use auth_proxy.Crypto.Preserving.{decrypt-Preserves}
use auth_proxy.Db.LdapConfigurations.Preserving.{get_ldap_configuration-Preserves}
use auth_proxy.Auth.Ldap.{
  Entry, SearchRequest, TlsConfig, Ldap, user_request, group_request, has, queued, sub_groups,
  search_group, search_groups, get_user_groups, upgrade, connect, or_denied, single_entry, session,
  not_reached, closing, manager_authenticate, ldap_authenticate,
}

pub record SparingLdap {W : Type 0} (ldap : Ldap W) (I : W → Type 0) : Type 0 where
  pub dial : (address : String) → Preserves I (ldap.dial address)
  pub start_tls : (c : ldap.Conn) (t : TlsConfig) → Preserves I (ldap.start_tls c t)
  pub bind : (c : ldap.Conn) (name password : String) → Preserves I (ldap.bind c name password)
  pub search : (c : ldap.Conn) (r : SearchRequest) → Preserves I (ldap.search c r)
  pub close : (c : ldap.Conn) (w : W) → I w → I (ldap.close c w)

module _ {W : Type 0} (ldap : Ldap W) {I : W → Type 0} (l : SparingLdap ldap I) where
  open ldap use {Conn}

  sub_groups-Preserves : (r : Result (List Entry)) → Preserves I (sub_groups ldap r)
  unfolding sub_groups
  sub_groups-Preserves (err e) = Preserves-throw _
  sub_groups-Preserves (ok []) = Preserves-throw _
  sub_groups-Preserves (ok (entry ∷ [])) = Preserves-pure _
  sub_groups-Preserves (ok (entry ∷ second ∷ entries)) = Preserves-throw _

  search_group-Preserves : (c : Conn) (g : String) → Preserves I (search_group ldap c g)
  unfolding search_group
  search_group-Preserves c g =
      Preserves-bind (Preserves-attempt (l.search c (group_request g))) sub_groups-Preserves

  search_groups-Preserves :
      (c : Conn) (fuel : ℕ) (groups processed : List String)
      → Preserves I (search_groups ldap c fuel groups processed)
  unfolding search_groups
  search_groups-Preserves c fuel [] processed = Preserves-pure processed
  search_groups-Preserves c zero (g ∷ groups) processed = Preserves-throw _
  search_groups-Preserves c (suc fuel) (g ∷ groups) processed =
      elim (Bool-cases (has processed g)) [
        | inl old ↦ rw (search_groups, old) (search_groups-Preserves c fuel groups processed)
        | inr new ↦
            rw (search_groups, new)
              (Preserves-bind (search_group-Preserves c g) (λ found.
                search_groups-Preserves c fuel (queued groups (g ∷ processed) found)
                  (g ∷ processed)))
      ]

  get_user_groups-Preserves :
      (c : Conn) (fuel : ℕ) (groups : List String)
      → Preserves I (get_user_groups ldap c fuel groups)
  unfolding get_user_groups
  get_user_groups-Preserves c fuel [] = Preserves-throw _
  get_user_groups-Preserves c fuel (g ∷ groups) = search_groups-Preserves c fuel (g ∷ groups) []

  upgrade-Preserves : (cfg : LdapConfiguration) (c : Conn) → Preserves I (upgrade ldap cfg c)
  unfolding upgrade
  upgrade-Preserves cfg c =
      Preserves-if (not (is_empty cfg.tls_cert_issued_to)) (l.start_tls c _)
        (Preserves-if cfg.insecure_skip_verify (l.start_tls c _) (Preserves-throw _))

  connect-Preserves : (cfg : LdapConfiguration) → Preserves I (connect ldap cfg)
  unfolding connect
  connect-Preserves cfg =
      Preserves-bind (Preserves-attempt (l.dial (append cfg.server (append ":" (itoa cfg.port)))))
        (λ dialed.
          Preserves-bind (Preserves-otherwise dialed (λ e. Preserves-throw (not_reached e))) (λ c.
            Preserves-if (not cfg.start_tls) (Preserves-pure c) (
              Preserves-bind (Preserves-attempt (upgrade-Preserves cfg c)) (λ upgraded.
                Preserves-then (Preserves-otherwise upgraded (λ e. Preserves-throw (not_reached e)))
                  (Preserves-pure c)))))

  or_denied-Preserves : {A : Type 0} {m : Exec W A} → Preserves I m → Preserves I (or_denied ldap m)
  unfolding or_denied
  or_denied-Preserves km =
      Preserves-bind (Preserves-attempt km)
        (λ r. Preserves-otherwise r (λ e. Preserves-throw (sentinel ldap_access_denied)))

  single_entry-Preserves : (es : List Entry) → Preserves I (single_entry ldap es)
  unfolding single_entry
  single_entry-Preserves [] = Preserves-throw _
  single_entry-Preserves (entry ∷ []) = Preserves-pure entry
  single_entry-Preserves (entry ∷ second ∷ es) = Preserves-throw _

  session-Preserves :
      (cfg : LdapConfiguration) (fuel : ℕ) (name password : String) (c : Conn)
      → Preserves I (session ldap cfg fuel name password c)
  unfolding session
  session-Preserves cfg fuel name password c =
      Preserves-then
        (or_denied-Preserves (l.bind c cfg.service_account_dn cfg.service_account_password))
        (Preserves-bind (or_denied-Preserves (l.search c (user_request cfg.base_dn name))) (λ es.
          Preserves-bind (single_entry-Preserves es) (λ entry.
            Preserves-then (or_denied-Preserves (l.bind c entry.dn password)) (
              Preserves-bind (get_user_groups-Preserves c fuel entry.member_of)
                (λ groups. Preserves-pure (entry.dn, groups))))))

  manager_authenticate-Preserves :
      (cfg : LdapConfiguration) (fuel : ℕ) (name password : String)
      → Preserves I (manager_authenticate ldap cfg fuel name password)
  unfolding manager_authenticate closing
  manager_authenticate-Preserves cfg fuel name password =
      Preserves-bind (connect-Preserves cfg) (λ c. record {
        at = λ w h. l.close c _ ((session-Preserves cfg fuel name password c).at w h);
      })

pub ldap_authenticate-Preserves :
    (env : Env) {I : env.World → Type 0} (s : Sparing env I) (ldap : Ldap env.World)
    → SparingLdap ldap I
    → (fuel : ℕ) (name password : String)
    → Preserves I (ldap_authenticate env ldap fuel name password)
unfolding ldap_authenticate
ldap_authenticate-Preserves env s ldap l fuel name password =
    Preserves-bind (get_ldap_configuration-Preserves env s) (λ cfg.
      Preserves-bind (decrypt-Preserves env s cfg.service_account_password)
        (λ p. manager_authenticate-Preserves ldap l _ fuel name password))
