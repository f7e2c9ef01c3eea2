-- ===== src/Proxy/Responses.antt =====
-- The functions of common/utils.go, proxy/handlers.go and proxy/helpers.go that write responses.
pub mod Reception
pub mod Answers
pub mod Redacted
pub mod Preserving
use auth_proxy.Prelude.{ℕ, ◌||◌, String, nat_eq, if◌then◌else◌}
use auth_proxy.Errors.{Error, error_text}
use auth_proxy.Exec.{◌>>◌}
use auth_proxy.Env.{Env}
use auth_proxy.Proxy.Exchange.{set_header, write_header, write_body, Handler, emit}

module _ {W : Type 0} where
  -- `EnableHSTS`
  unfoldable pub enable_hsts : Handler W (Unit {0})
  unfolding emit
  enable_hsts = emit (set_header "Strict-Transport-Security" "max-age=15768000")

  -- `SetDefaultResponseHeaders`
  unfoldable pub set_default_response_headers : Handler W (Unit {0})
  set_default_response_headers = do
    emit (set_header "Content-Type" "application/json; charset=utf-8")
    emit (set_header "Cache-Control" "no-store")
    enable_hsts

module _ (env : Env) where
  open env use {World, error_response_json}

  -- `authError`
  unfoldable pub auth_error : ℕ → String → Handler World (Unit {0})
  unfolding emit
  auth_error status_code msg = do
    emit (write_header status_code)
    emit (write_body (error_response_json msg))

  -- `serverError`
  unfoldable pub server_error : Error → Handler World (Unit {0})
  unfolding emit
  server_error e = do
    emit (write_header 500)
    emit (write_body (error_response_json (error_text e)))

  -- `processStatusCodes`
  unfoldable pub process_status_codes : ℕ → String → Handler World (Unit {0})
  process_status_codes status_code resp = do
    set_default_response_headers
    if nat_eq status_code 201 || nat_eq status_code 200
        then (do emit (write_header status_code); emit (write_body resp))
        else if nat_eq status_code 404 || nat_eq status_code 204
        then emit (write_header status_code)
        else (do emit (write_header status_code); emit (write_body (error_response_json resp)))
