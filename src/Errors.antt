-- ===== src/Errors.antt =====
-- common/errors/errors.go: the error codes, the constant error values and `AuthError`.
--
-- Go compares errors by identity. A constant value `ErrX` is `sentinel x`; an error that `NewError`
-- makes elsewhere is `new_error`, which equals no constant value; `errorf` is the result of
-- `fmt.Errorf` or `errors.New`, with its format, and `foreign` an error of another package, with its
-- text. `panic` is no error but a run-time panic, which ends the request.
use auth_proxy.Prelude.{ℕ, ◌≡◌, refl, ◌⊎◌, inl, inr, Bool, true, false, String, append}
use auth_proxy.Text.{itoa}

pub data Code : Type 0 where
  no_code : Code
  not_implemented : Code
  key_not_found common_state_fields_missing invalid_call reading_from_store : Code
  unauthorized illegal_arguments unsupported_type parsing_token internal parsing_request : Code
  unmarshaling_body update_authorization partial_failure_to_add_authz : Code
  partial_failure_to_update_authz state_driver_not_created key_exists illegal_operation : Code
  access_denied user_not_found ldap_configuration_not_found ldap_connection_failed : Code
  ldap_access_denied ldap_groups_not_found ldap_multiple_entries : Code
  local_authentication_failed last_error : Code

-- The value that `iota` gives each code.
unfoldable pub number : Code → ℕ
number no_code = 0
number not_implemented = 1
number key_not_found = 2
number common_state_fields_missing = 3
number invalid_call = 4
number reading_from_store = 5
number unauthorized = 6
number illegal_arguments = 7
number unsupported_type = 8
number parsing_token = 9
number internal = 10
number parsing_request = 11
number unmarshaling_body = 12
number update_authorization = 13
number partial_failure_to_add_authz = 14
number partial_failure_to_update_authz = 15
number state_driver_not_created = 16
number key_exists = 17
number illegal_operation = 18
number access_denied = 19
number user_not_found = 20
number ldap_configuration_not_found = 21
number ldap_connection_failed = 22
number ldap_access_denied = 23
number ldap_groups_not_found = 24
number ldap_multiple_entries = 25
number local_authentication_failed = 26
number last_error = 27

pub data Error : Type 0 where
  sentinel : Code → Error
  new_error : Code → String → Error
  errorf foreign panic : String → Error

-- The message of each constant error value.
unfoldable pub message : Code → String
message not_implemented = "not implemented"
message key_not_found = "key not found"
message common_state_fields_missing = "expected fields missing"
message invalid_call = "invalid method or function call"
message state_driver_not_created = "state driver not created"
message key_exists = "key exists already in data store"
message illegal_operation = "illegal operation"
message access_denied = "Access Denied"
message reading_from_store = "error reading from KV store"
message unauthorized = "unauthorized access"
message illegal_arguments = "illegal arguments"
message unsupported_type = "Unsupported object type"
message parsing_token = "failed to parse authz token"
message internal = "an internal error has occurred"
message parsing_request = "failed to parse HTTP request body"
message unmarshaling_body = "failed to unmarshall request body"
message update_authorization = "failed to update authorization"
message partial_failure_to_add_authz = "failed to add authorization"
message partial_failure_to_update_authz = "failed to update authorization"
message user_not_found = "User not found"
message ldap_configuration_not_found = "LDAP/AD settings not found"
message ldap_connection_failed = "LDAP/AD connection failed"
message ldap_access_denied = "LDAP/AD access denied"
message ldap_groups_not_found = "No groups found, cannot process"
message ldap_multiple_entries = "Expected single entry; found multiple entries in AD"
message local_authentication_failed = "Local authentication failed"
-- no constant value has these two codes
message no_code = ""
message last_error = ""

-- The tests `err == ErrX` of the program.
unfoldable pub is_key_not_found : Error → Bool
is_key_not_found (sentinel key_not_found) = true
is_key_not_found _ = false

unfoldable pub is_key_exists : Error → Bool
is_key_exists (sentinel key_exists) = true
is_key_exists _ = false

unfoldable pub is_illegal_operation : Error → Bool
is_illegal_operation (sentinel illegal_operation) = true
is_illegal_operation _ = false

-- `err == ErrUserNotFound || err == ErrAccessDenied`
unfoldable pub is_denied_locally : Error → Bool
is_denied_locally (sentinel user_not_found) = true
is_denied_locally (sentinel access_denied) = true
is_denied_locally _ = false

unfoldable pub is_panic : Error → Bool
is_panic (panic _) = true
is_panic _ = false

pub is_key_not_found_lem : (e : Error) → is_key_not_found e ≡ true → e ≡ sentinel key_not_found
unfolding is_key_not_found
is_key_not_found_lem (sentinel key_not_found) h = refl
is_key_not_found_lem e h = cc

pub data Result {ℓ} (A : Type ℓ) : Type ℓ where
  ok : A → Result A
  err : Error → Result A

-- `AuthError.Error`, and the texts of the other errors.
unfoldable pub error_text : Error → String
unfolding number message
error_text (sentinel c) = append (itoa (number c)) (append ":" (message c))
error_text (new_error c text) = append (itoa (number c)) (append ":" text)
error_text (errorf text) = text
error_text (foreign text) = text
error_text (panic text) = text

pub Result-cases {ℓ} :
    {A : Type ℓ} (r : Result A) → ((a : A) × (r ≡ ok a)) ⊎ ((e : Error) × (r ≡ err e))
Result-cases (ok a) = inl (a, refl)
Result-cases (err e) = inr (e, refl)
