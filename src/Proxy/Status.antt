-- ===== src/Proxy/Status.antt =====
-- The health and version endpoints of proxy/handlers.go, and `GetNetmasterVersion` of
-- common/utils.go.
pub mod Answers
pub mod Preserving
use auth_proxy.Prelude.{String, append}
use auth_proxy.Errors.{errorf, error_text, Result, ok, err}
use auth_proxy.Exec.{Exec, pure, throw, attempt, ◌>>=◌, ◌>>◌}
use auth_proxy.Messages.{NetmasterHealth, Health}
use auth_proxy.Env.{Env, Request, Config}
use auth_proxy.Proxy.Exchange.{Handler, write_body, emit, call}
use auth_proxy.Proxy.Responses.{set_default_response_headers, server_error}

-- An error's text behind a prefix.
explained : {W A : Type 0} → String → Result A → Exec W A
explained prefix (ok a) = pure a
explained prefix (err e) = throw (errorf (append prefix (error_text e)))

-- `MarkHealthy` and `MarkUnhealthy` of a fresh `NetmasterHealthCheckResponse`.
unfoldable pub netmaster_health : Result String → NetmasterHealth
netmaster_health (ok version) = record { status = "healthy"; reason = ""; version = version }
netmaster_health (err e) = record { status = "unhealthy"; reason = error_text e; version = "" }

-- The health of the proxy: without netmaster it is unhealthy.
unfoldable pub health : String → Result String → Health
unfolding netmaster_health
health version (ok v) = record {
  netmaster_health = netmaster_health (ok v);
  status = "healthy";
  version = version;
}
health version (err e) = record {
  netmaster_health = netmaster_health (err e);
  status = "unhealthy";
  version = version;
}

module _ (env : Env) where
  open env use {World, http_get, netmaster_version_json, health_json, version_json}

  -- `GetNetmasterVersion`
  unfoldable pub get_netmaster_version : String → Exec World String
  unfolding explained
  get_netmaster_version address = do
    r ← attempt (http_get (append "http://" (append address "/version")))
    resp ← explained "failed to connect to netmaster: " r
    body ← explained "failed to read response from netmaster: " resp.body
    explained "failed to unmarshal response: " (netmaster_version_json.unmarshal body)

  written : String → Result String → Handler World (Unit {0})
  unfolding emit
  written prefix (ok body) = emit (write_body body)
  written prefix (err e) = server_error env (errorf (append prefix (error_text e)))

  -- `healthCheckHandler`
  unfoldable pub health_check_handler : Config → Request → Handler World (Unit {0})
  unfolding written
  health_check_handler config req = do
    set_default_response_headers
    v ← call (get_netmaster_version config.netmaster_address)
    written "failed to marshal health check response: "
        (health_json.marshal (health config.version v))

  -- `versionHandler`
  unfoldable pub version_handler : String → Request → Handler World (Unit {0})
  unfolding written
  version_handler version req = do
    set_default_response_headers
    written "failed to marshal version response: " (version_json.marshal version)
