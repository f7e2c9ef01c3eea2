-- ===== src/Proxy/LdapConfigurations/Tls.antt =====
-- `validateTLSParams` of proxy/helpers.go, and the merge of `updateLdapConfigurationInfo`.
use auth_proxy.Prelude.{
  Bool, true, false, not, ◌&&◌, String, Option, none, some, eq_bool, ltb, if◌then◌else◌, ◌≡◌, refl,
  arith, Bool-cases, inl, inr,
}
use auth_proxy.Text.{is_empty}
use auth_proxy.Text.Patterns.{matches_ip}
use auth_proxy.Types.{LdapConfiguration}

-- The parameters that TLS does not use are cleared.
unfoldable pub clear_unused : LdapConfiguration → LdapConfiguration
clear_unused cfg =
    let a : LdapConfiguration =
      if cfg.start_tls
      then cfg
      else record cfg { insecure_skip_verify = false; tls_cert_issued_to = "" } in
    if a.insecure_skip_verify then record a { tls_cert_issued_to = "" } else a

-- `validateTLSParams`: `none` is its error, "InsecureSkipVerify or TLSCertIssuedTo must be
-- provided for TLS/SSL connection".
unfoldable pub validate_tls_params : LdapConfiguration → Option LdapConfiguration
unfolding clear_unused
validate_tls_params cfg =
    let a = clear_unused cfg in
    if a.start_tls && is_empty a.tls_cert_issued_to
    then (if a.insecure_skip_verify
        then some a
        else if matches_ip a.server
        then none
        else some (record a { tls_cert_issued_to = a.server }))
    else some a

abbrev or_kept : String → String → String
or_kept given kept = if is_empty given then kept else given

-- The configuration that `updateLdapConfigurationInfo` makes of the given and the actual one. It
-- starts from a copy of the actual one without `InsecureSkipVerify`.
unfoldable pub merged_configuration : LdapConfiguration → LdapConfiguration → LdapConfiguration
merged_configuration given actual = record {
  server = or_kept given.server actual.server;
  port = if ltb 0 given.port then given.port else actual.port;
  base_dn = or_kept given.base_dn actual.base_dn;
  service_account_dn = or_kept given.service_account_dn actual.service_account_dn;
  service_account_password = or_kept given.service_account_password actual.service_account_password;
  start_tls =
      if eq_bool actual.start_tls given.start_tls then actual.start_tls else given.start_tls;
  insecure_skip_verify =
      if eq_bool actual.insecure_skip_verify given.insecure_skip_verify
      then false
      else given.insecure_skip_verify;
  tls_cert_issued_to = or_kept given.tls_cert_issued_to actual.tls_cert_issued_to;
}

-- What a configuration that was accepted for writing satisfies: with STARTTLS the server's
-- certificate is either not verified or has a name to be verified against, and not both, and without
-- it neither parameter is set.
unfoldable pub well_tls : LdapConfiguration → Bool
well_tls a =
    if a.start_tls
    then (if a.insecure_skip_verify
        then is_empty a.tls_cert_issued_to
        else not (is_empty a.tls_cert_issued_to))
    else not a.insecure_skip_verify && is_empty a.tls_cert_issued_to

-- A refusal, or a configuration that satisfies `well_tls`.
abbrev well_or_refused : Option LdapConfiguration → Bool
well_or_refused none = true
well_or_refused (some a) = well_tls a

validated :
    (cfg : LdapConfiguration)
    → is_empty cfg.server ≡ false
    → well_or_refused (validate_tls_params cfg) ≡ true
unfolding validate_tls_params clear_unused well_tls is_empty
validated cfg named = elim (Bool-cases cfg.start_tls) [
  | inr plain ↦ rw plain refl
  | inl tls ↦ elim (Bool-cases cfg.insecure_skip_verify) [
    | inl skipped ↦ rw (tls, skipped) refl
    | inr verified ↦ elim (Bool-cases (is_empty cfg.tls_cert_issued_to)) [
      | inr given ↦ rw (tls, verified, given) (rw given refl)
      | inl missing ↦ elim (Bool-cases (matches_ip cfg.server)) [
        | inl address ↦ rw (tls, verified, missing, address) refl
        | inr name ↦ rw (tls, verified, missing, name, named) refl
      ]
    ]
  ]
]

idempotent :
    (cfg a : LdapConfiguration) → validate_tls_params cfg ≡ some a → validate_tls_params a ≡ some a
unfolding validate_tls_params clear_unused is_empty
idempotent cfg a h = ground arith

-- What `validateTLSParams` accepts, when a server is given, satisfies `well_tls`, and is accepted
-- again as it is.
pub validate_tls_params-well_tls :
    (cfg a : LdapConfiguration)
    → is_empty cfg.server ≡ false
    → validate_tls_params cfg ≡ some a
    → (well_tls a ≡ true) × (validate_tls_params a ≡ some a)
validate_tls_params-well_tls cfg a named h = (rw h at (validated cfg named), idempotent cfg a h)
