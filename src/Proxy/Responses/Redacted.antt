-- ===== src/Proxy/Responses/Redacted.antt =====
-- What the replies about users and about the LDAP configuration may show.
use auth_proxy.Prelude.{
  ℕ, ◌≡◌, ◌||◌, ◌==◌, ◌⊎◌, inl, inr, refl, sym, subst, Bool, true, false, if◌then◌else◌, Bool-cases,
  String, append, List, [], ◌∷◌, All, any, nat_eq,
}
use auth_proxy.Errors.{Error, error_text, is_key_not_found, ok, err}
use auth_proxy.Exec.Preserves.{Preserves-then}
use auth_proxy.Text.{itoa}
use auth_proxy.Types.{LocalUser, LdapConfiguration}
use auth_proxy.Env.{Env, Request}
use auth_proxy.Db.LocalUsers.Failing.{UserUnread, UsersUnread}
use auth_proxy.Proxy.Exchange.{Write, set_header, write_header, write_body}
use auth_proxy.Proxy.Exchange.Writes.{Writes, Writes-emit}
use auth_proxy.Proxy.Responses.{
  enable_hsts, set_default_response_headers, auth_error, server_error, process_status_codes,
}

abbrev pub NoSecrets : LocalUser → Type 0
NoSecrets user = (user.password ≡ "") × (user.password_hash ≡ "")

abbrev pub NoPassword : LdapConfiguration → Type 0
NoPassword cfg = cfg.service_account_password ≡ ""

-- The messages that the program states itself. A name in quotes stands for the user's name.
abbrev messages : List String
messages =
    "access denied" ∷ "User account disabled" ∷ "Invalid user" ∷ "Bad token"
    ∷ "X-Auth-Token header is missing" ∷ "Empty auth token" ∷ "Empty username"
    ∷ "Username/Password is empty" ∷ "Invalid username. Only aplha-numeric and [-_.@] are allowed"
    ∷ "User %q exists already" ∷ "16:state driver not created"
    ∷ "Couldn't fetch users from data store" ∷ "Failed to read local user %q data from store: %#v"
    ∷ "Failed to unmarshal local user %q info %#v" ∷ "Failed to fetch local user %q"
    ∷ "Failed to fetch local users" ∷ "Failed to update local user %q"
    ∷ "Failed to delete local user %q from the system" ∷ "Failed to add local user %q to the system"
    ∷ "Cannot update built-in user %q" ∷ "Cannot delete built-in user %q"
    ∷ "InsecureSkipVerify or TLSCertIssuedTo must be provided for TLS/SSL connection"
    ∷ "Invalid Server/Port details" ∷ "Empty service account DN/Password" ∷ "Empty base DN"
    ∷ "LDAP setttings exists already. Request `update` if some config needs change"
    ∷ "Failed to add LDAP configuration to the system"
    ∷ "Failed to update LDAP settings to the data store"
    ∷ "Failed to delete LDAP configuration from the data store"
    ∷ "Failed to retrieve LDAP configuration from the data store" ∷ []

unfoldable pub is_message : String → Bool
unfolding any
is_message msg = any (λ m. msg == m) messages

-- The texts of errors: a message that the program states, the error of reading or parsing the
-- request's own body, of parsing a stored user, or of printing what has no secrets.
pub data Explained (env : Env) (req : Request) : String → Type 0 where
  stated : (msg : String) → is_message msg ≡ true → Explained env req msg
  unread :
      (e : Error)
      → req.body ≡ err e
      → Explained env req (append "Failed to read body from request: " (error_text e))
  unparsed_user :
      (body : String) (e : Error)
      → req.body ≡ ok body
      → env.local_user_json.unmarshal body ≡ err e
      → Explained env req
          (append "Failed to unmarshal user info. from request body: " (error_text e))
  unparsed_configuration :
      (text body : String) (e : Error)
      → (text ≡ "Failed to unmarshal user info. from request body: ")
        ⊎ (text ≡ "Failed to unmarshal LDAP info. from request body: ")
      → req.body ≡ ok body
      → env.ldap_json.unmarshal body ≡ err e
      → Explained env req (append text (error_text e))
  unparsed_stored :
      (raw : String) (e : Error)
      → env.local_user_json.unmarshal raw ≡ err e
      → Explained env req (error_text e)
  unprinted_user :
      (user : LocalUser) (e : Error)
      → NoSecrets user
      → env.local_user_json.marshal user ≡ err e
      → Explained env req (error_text e)
  unprinted_configuration :
      (cfg : LdapConfiguration) (e : Error)
      → NoPassword cfg
      → env.ldap_json.marshal cfg ≡ err e
      → Explained env req (error_text e)

module _ (env : Env) (req : Request) where
  stated_error :
      (e e' : Error) → e ≡ e' → is_message (error_text e') ≡ true → Explained env req (error_text e)
  stated_error e e' same listed =
      subst (λ x. Explained env req (error_text x)) (sym same) (stated (error_text e') listed)

  -- The errors of `GetLocalUser` but a missing key, and those of `GetLocalUsers`.
  pub UserUnread-Explained :
      (e : Error) → is_key_not_found e ≡ false → UserUnread env e → Explained env req (error_text e)
  unfolding is_message error_text itoa
  UserUnread-Explained e other (inl missing) = cc
  UserUnread-Explained e other (inr (inl same)) = stated_error e _ same refl
  UserUnread-Explained e other (inr (inr (inl same))) = stated_error e _ same refl
  UserUnread-Explained e other (inr (inr (inr same))) = stated_error e _ same refl

  pub UsersUnread-Explained : (e : Error) → UsersUnread env e → Explained env req (error_text e)
  unfolding is_message error_text itoa
  UsersUnread-Explained e (inl same) = stated_error e _ same refl
  UsersUnread-Explained e (inr (inl same)) = stated_error e _ same refl
  UsersUnread-Explained e (inr (inr (raw, bad))) = unparsed_stored raw e bad

  -- A text that prints one user or several without password and hash, or a configuration without its
  -- password.
  abbrev pub Blank : String → Type 0
  Blank b =
      ((user : LocalUser) × (env.local_user_json.marshal user ≡ ok b) × NoSecrets user)
      ⊎ ((users : List LocalUser) × (env.local_users_json.marshal users ≡ ok b)
          × All NoSecrets users)
      ⊎ ((cfg : LdapConfiguration) × (env.ldap_json.marshal cfg ≡ ok b) × NoPassword cfg)

  -- A body is such a text or an explained error's.
  abbrev pub Redacted : Write → Type 0
  Redacted (set_header k v) = Unit {0}
  Redacted (write_header n) = Unit {0}
  Redacted (write_body b) =
      ((msg : String) × (b ≡ env.error_response_json msg) × Explained env req msg) ⊎ Blank b

  -- A reply of a helper: its text is shown as it is with the statuses 200 and 201, as an error's text
  -- with the others but 404 and 204, and not at all with these.
  pub record BlankReply (reply : ℕ × String) : Type 0 where
    pub shown : (nat_eq reply.0 201 || nat_eq reply.0 200) ≡ true → Blank reply.1
    pub told :
        (nat_eq reply.0 404 || nat_eq reply.0 204) ≡ false
        → (nat_eq reply.0 201 || nat_eq reply.0 200) ≡ false
        → Explained env req reply.1

  pub BlankReply-if :
      (b : Bool) (r s : ℕ × String) → BlankReply r → BlankReply s → BlankReply (if b then r else s)
  BlankReply-if true r s kr ks = kr
  BlankReply-if false r s kr ks = ks

  pub BlankReply-none :
      (n : ℕ) (t : String)
      → (nat_eq n 404 || nat_eq n 204) ≡ true
      → (nat_eq n 201 || nat_eq n 200) ≡ false
      → BlankReply (n, t)
  BlankReply-none n t silent other = record { shown = λ h. cc; told = λ h k. cc }

  pub BlankReply-error :
      (n : ℕ) (t : String)
      → (nat_eq n 201 || nat_eq n 200) ≡ false
      → Explained env req t
      → BlankReply (n, t)
  BlankReply-error n t other why = record { shown = λ h. cc; told = λ h k. why }

  pub BlankReply-stated :
      (n : ℕ) (t : String)
      → (nat_eq n 201 || nat_eq n 200) ≡ false
      → is_message t ≡ true
      → BlankReply (n, t)
  BlankReply-stated n t other listed = BlankReply-error n t other (stated t listed)

  headers-Redacted : Writes {W = env.World} Redacted set_default_response_headers
  unfolding set_default_response_headers enable_hsts
  headers-Redacted =
      Preserves-then (Writes-emit Redacted _ tt)
        (Preserves-then (Writes-emit Redacted _ tt) (Writes-emit Redacted _ tt))

  pub auth_error-Redacted :
      (n : ℕ) (msg : String) → Explained env req msg → Writes Redacted (auth_error env n msg)
  unfolding auth_error
  auth_error-Redacted n msg why =
      Preserves-then (Writes-emit Redacted (write_header n) tt)
        (Writes-emit Redacted (write_body (env.error_response_json msg)) (inl (msg, refl, why)))

  pub server_error-Redacted :
      (e : Error) → Explained env req (error_text e) → Writes Redacted (server_error env e)
  unfolding server_error
  server_error-Redacted e why = Preserves-then (Writes-emit Redacted (write_header 500) tt) (
      Writes-emit Redacted (write_body (env.error_response_json (error_text e)))
        (inl (error_text e, refl, why)))

  pub process_status_codes-Redacted :
      (n : ℕ) (resp : String)
      → BlankReply (n, resp)
      → Writes Redacted (process_status_codes env n resp)
  unfolding process_status_codes
  process_status_codes-Redacted n resp blank =
      Preserves-then headers-Redacted (elim (Bool-cases (nat_eq n 201 || nat_eq n 200)) [
        | inl ok_status ↦ rw ok_status (
            Preserves-then (Writes-emit Redacted (write_header n) tt)
              (Writes-emit Redacted (write_body resp) (inr (blank.shown ok_status))))
        | inr other ↦ rw other (elim (Bool-cases (nat_eq n 404 || nat_eq n 204)) [
          | inl silent ↦ rw silent (Writes-emit Redacted (write_header n) tt)
          | inr loud ↦ rw loud (
              Preserves-then (Writes-emit Redacted (write_header n) tt) (
                Writes-emit Redacted (write_body (env.error_response_json resp))
                  (inl (resp, refl, blank.told loud other))))
        ])
      ])
