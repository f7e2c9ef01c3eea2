-- ===== src/Auth/Ldap/Success.antt =====
-- What `Manager.Authenticate` of auth/ldap/ldap.go has done when it succeeds, call by call.
use auth_proxy.Prelude.{
  ℕ, Bool, true, false, not, Bool-cases, inl, inr, ◌≡◌, ◌⊎◌, ap, sym, subst, ◌∙◌, refl,
  if◌then◌else◌, String, append, List, [], ◌∷◌,
}
use auth_proxy.Errors.{sentinel, ldap_access_denied, ok}
use auth_proxy.Exec.{Exec, pure, throw, attempt, otherwise, ◌>>=◌, ◌>>◌}
use auth_proxy.Exec.Succeeds.{>>=-ok, attempt-otherwise}
use auth_proxy.Text.{is_empty, itoa}
use auth_proxy.Types.{LdapConfiguration}
use auth_proxy.Auth.Ldap.{
  Entry, whole_subtree, TlsConfig, Ldap, user_request, get_user_groups, upgrade, connect, or_denied,
  single_entry, session, closing, manager_authenticate, not_reached,
}

module _ {W : Type 0} (ldap : Ldap W) (config : LdapConfiguration) where
  open ldap use {Conn, dial, start_tls, bind, search, close}

  -- The server's certificate is verified against the name that is configured, or, if there is none,
  -- not at all where that is configured.
  pub AsConfigured : TlsConfig → Type 0
  AsConfigured tls =
      (is_empty config.tls_cert_issued_to ≡ false)
        × (tls ≡ record { server_name = config.tls_cert_issued_to; insecure_skip_verify = false })
      ⊎ (is_empty config.tls_cert_issued_to ≡ true)
        × (config.insecure_skip_verify ≡ true)
        × (tls ≡ record { server_name = ""; insecure_skip_verify = true })

  -- Between the two worlds the connection was upgraded to TLS, if the configuration asks for it.
  pub Secured : Conn → W → W → Type 0
  Secured conn w w' =
      (config.start_tls ≡ false) × (w' ≡ w)
      ⊎ (config.start_tls ≡ true)
        × ((tls : TlsConfig) × AsConfigured tls × (start_tls conn tls w ≡ (ok tt, w')))

  -- The calls from the first world to the second, each in the world that the one before it left: the
  -- configured server was dialled, the connection was upgraded to TLS if that is configured, the
  -- service account was bound, the search for the user's name found one entry, the password was bound
  -- to the name of that entry, its groups were searched, and the connection was closed.
  pub record Authenticated (fuel : ℕ) (username password : String) (answer : String × List String)
      (w w' : W) : Type 0 where
    pub conn : Conn
    pub entry : Entry
    pub w_dialed : W
    pub w_secured : W
    pub w_service : W
    pub w_found : W
    pub w_verified : W
    pub w_ended : W
    pub dialed : dial (append config.server (append ":" (itoa config.port))) w ≡ (ok conn, w_dialed)
    pub secured : Secured conn w_dialed w_secured
    pub service_bound :
        bind conn config.service_account_dn config.service_account_password w_secured
        ≡ (ok tt, w_service)
    pub found :
        search conn
          (record {
            base_dn = config.base_dn;
            scope = whole_subtree;
            filter = append "(&(objectClass=user)(sAMAccountName=" (append username "))");
          })
          w_service
        ≡ (ok (entry ∷ []), w_found)
    pub verified : bind conn entry.dn password w_found ≡ (ok tt, w_verified)
    pub groups : get_user_groups ldap conn fuel entry.member_of w_verified ≡ (ok answer.1, w_ended)
    pub name : answer.0 ≡ entry.dn
    pub closed : close conn w_ended ≡ w'

  or_denied-ok :
      {A : Type 0} (call : Exec W A) (w : W) (a : A) (w' : W)
      → or_denied ldap call w ≡ (ok a, w')
      → call w ≡ (ok a, w')
  unfolding or_denied
  or_denied-ok call w a w' h = attempt-otherwise call (λ _. sentinel ldap_access_denied) w a w' h

  single_entry-ok :
      (entries : List Entry) (w : W) (entry : Entry) (w' : W)
      → single_entry ldap entries w ≡ (ok entry, w')
      → (entries ≡ entry ∷ []) × (w ≡ w')
  unfolding single_entry
  single_entry-ok [] w entry w' h = cc
  single_entry-ok (e ∷ []) w entry w' h =
      let same : e ≡ entry = cc (ap (λ r. r.0) h) in (rw same refl, ap (λ r. r.1) h)
  single_entry-ok (e ∷ f ∷ entries) w entry w' h = cc

  upgrade-AsConfigured :
      (conn : Conn) (w w' : W)
      → upgrade ldap config conn w ≡ (ok tt, w')
      → (tls : TlsConfig) × AsConfigured tls × (start_tls conn tls w ≡ (ok tt, w'))
  unfolding upgrade AsConfigured
  upgrade-AsConfigured conn w w' h = elim (Bool-cases (is_empty config.tls_cert_issued_to)) [
    | inr named ↦ (_, inl (named, refl), rw named at h)
    | inl unnamed ↦ elim (Bool-cases config.insecure_skip_verify) [
      | inl skips ↦ (_, inr (unnamed, skips, refl), rw (unnamed, skips) at h)
      | inr checks ↦ cc (rw (unnamed, checks) at h)
    ]
  ]

  -- The end of `connect`, with or without STARTTLS.
  abbrev secure : Bool → Conn → Exec W Conn
  secure asked conn = if not asked then pure conn else do
    upgraded ← attempt (upgrade ldap config conn)
    otherwise upgraded (λ e. throw (not_reached e))
    pure conn

  secure-Secured :
      (asked : Bool) (conn conn' : Conn) (w w' : W)
      → config.start_tls ≡ asked
      → secure asked conn w ≡ (ok conn', w')
      → (conn ≡ conn') × Secured conn w w'
  unfolding Secured
  secure-Secured false conn conn' w w' plain h =
      (cc (ap (λ r. r.0) h), inl (plain, sym (ap (λ r. r.1) h)))
  secure-Secured true conn conn' w w' asked h =
      let (_, w1, h1, h2) =
        >>=-ok (otherwise (upgrade ldap config conn w).0 (λ e. throw (not_reached e)))
          (λ _. pure conn) (upgrade ldap config conn w).1 conn' w' h in
      let (tls, settings, upgraded) =
        upgrade-AsConfigured conn w w1
          (attempt-otherwise (upgrade ldap config conn) not_reached w tt w1 h1) in
      (
        cc (ap (λ r. r.0) h2),
        inr (asked, (tls, settings, upgraded ∙ ap (λ v. (ok tt, v)) (ap (λ r. r.1) h2))),
      )

  connect-Secured :
      (w w' : W) (conn : Conn)
      → connect ldap config w ≡ (ok conn, w')
      → (w1 : W) × (dial (append config.server (append ":" (itoa config.port))) w ≡ (ok conn, w1))
        × Secured conn w1 w'
  unfolding connect
  connect-Secured w w' conn h =
      let address = append config.server (append ":" (itoa config.port)) in
      let (conn1, w1, h1, h2) =
        >>=-ok (otherwise (dial address w).0 (λ e. throw (not_reached e))) (secure config.start_tls)
          (dial address w).1 conn w' h in
      let (same, secured) = secure-Secured config.start_tls conn1 conn w1 w' refl h2 in
      (
        w1,
        attempt-otherwise (dial address) not_reached w conn1 w1 h1 ∙ ap (λ c. (ok c, w1)) same,
        subst (λ c. Secured c w1 w') same secured,
      )

  session-Authenticated :
      (fuel : ℕ) (username password : String) (conn : Conn) (answer : String × List String)
      (w w1 w2 w' : W)
      → dial (append config.server (append ":" (itoa config.port))) w ≡ (ok conn, w1)
      → Secured conn w1 w2
      → session ldap config fuel username password conn w2 ≡ (ok answer, w')
      → Authenticated fuel username password answer w (close conn w')
  unfolding session user_request
  session-Authenticated fuel username password conn answer w w1 w2 w' dialed secured h =
      let (_, w3, h3, k3) =
        >>=-ok
          (or_denied ldap (bind conn config.service_account_dn config.service_account_password)) _
          w2 answer w' h in
      let (entries, w4, h4, k4) =
        >>=-ok (or_denied ldap (search conn (user_request config.base_dn username))) _ w3 answer w'
          k3 in
      let (entry, w5, h5, k5) = >>=-ok (single_entry ldap entries) _ w4 answer w' k4 in
      let (_, w6, h6, k6) =
        >>=-ok (or_denied ldap (bind conn entry.dn password)) _ w5 answer w' k5 in
      let (groups, w7, h7, k7) =
        >>=-ok (get_user_groups ldap conn fuel entry.member_of) _ w6 answer w' k6 in
      let (one, stays) = single_entry-ok entries w4 entry w5 h5 in
      let same : (entry.dn, groups) ≡ answer = cc (ap (λ r. r.0) k7) in
      record {
        conn = conn;
        entry = entry;
        w_dialed = w1;
        w_secured = w2;
        w_service = w3;
        w_found = w5;
        w_verified = w6;
        w_ended = w';
        dialed = dialed;
        secured = secured;
        service_bound =
            or_denied-ok (bind conn config.service_account_dn config.service_account_password) w2 tt
              w3 h3;
        found =
            or_denied-ok (search conn (user_request config.base_dn username)) w3 entries w4 h4
            ∙ ap (λ es. (ok es, w4)) one
            ∙ ap (λ v. (ok (entry ∷ []), v)) stays;
        verified = or_denied-ok (bind conn entry.dn password) w5 tt w6 h6;
        groups =
            h7
            ∙ ap (λ gs. (ok gs, w7)) (ap (λ a. a.1) same)
            ∙ ap (λ v. (ok answer.1, v)) (ap (λ r. r.1) k7);
        name = sym (ap (λ a. a.0) same);
        closed = refl;
      }

  -- If `Manager.Authenticate` succeeds, then the calls of the server were these, in this order and
  -- nothing between them: the configured address was dialled; if STARTTLS is configured, the connection
  -- was upgraded to TLS, with the server's certificate verified against the configured name, or not
  -- verified if there is no name and that is configured; the service account was bound; the search for
  -- the user's name below the configured base found exactly one entry; the password was bound to the
  -- name of that entry, which is the name that is returned; its groups were searched, which are
  -- returned; and the connection was closed.
  pub manager_authenticate-Authenticated :
      (fuel : ℕ) (username password : String) (w : W) (answer : String × List String) (w' : W)
      → manager_authenticate ldap config fuel username password w ≡ (ok answer, w')
      → Authenticated fuel username password answer w w'
  unfolding manager_authenticate closing
  manager_authenticate-Authenticated fuel username password w answer w' h =
      let (conn, w2, h2, k2) = >>=-ok (connect ldap config) _ w answer w' h in
      let (w1, dialed, secured) = connect-Secured w w2 conn h2 in
      let run = session ldap config fuel username password conn w2 in
      rw (← ap (λ r. r.1) k2) (
        session-Authenticated fuel username password conn answer w w1 w2 run.1 dialed secured
          (ap (λ r. (r, run.1)) (ap (λ r. r.0) k2)))
