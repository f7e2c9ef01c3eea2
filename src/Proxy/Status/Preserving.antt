-- ===== src/Proxy/Status/Preserving.antt =====
-- The health and version endpoints, and the entry of the built-in administrator.
use auth_proxy.Prelude.{String, append}
use auth_proxy.Errors.{Result, ok, err}
use auth_proxy.Exec.Preserves.{
  Preserves, Preserves-pure, Preserves-throw, Preserves-attempt, Preserves-bind, Preserves-then,
}
use auth_proxy.Env.{Env, Request, Config}
use auth_proxy.Env.Sparing.{Sparing}
use auth_proxy.Proxy.Exchange.Preserving.{NoSlash, Spares, Spares-call, Spares-emit}
use auth_proxy.Proxy.Responses.Preserving.{headers-Spares, server_error-Spares}
use auth_proxy.Proxy.Status.{
  explained, health, get_netmaster_version, written, health_check_handler, version_handler,
}

explained-Preserves :
    {W A : Type 0} {I : W → Type 0} (t : String) (r : Result A) → Preserves I (explained t r)
unfolding explained
explained-Preserves t (ok a) = Preserves-pure a
explained-Preserves t (err e) = Preserves-throw _

module _ (env : Env) {I : env.World → Type 0} (s : Sparing env I) where
  get_netmaster_version-Preserves :
      (address : String) → Preserves I (get_netmaster_version env address)
  unfolding get_netmaster_version
  get_netmaster_version-Preserves address =
      Preserves-bind
        (Preserves-attempt (s.packages.http_get (append "http://" (append address "/version"))))
        (λ r. Preserves-bind (explained-Preserves "failed to connect to netmaster: " r) (λ resp.
          Preserves-bind (explained-Preserves "failed to read response from netmaster: " resp.body)
            (λ body.
              explained-Preserves "failed to unmarshal response: "
                (env.netmaster_version_json.unmarshal body))))

  written-Spares : (t : String) (r : Result String) → Spares I (written env t r)
  unfolding written
  written-Spares t (ok body) = Spares-emit I _
  written-Spares t (err e) = server_error-Spares env I _

  pub health_check_handler-Spares :
      (config : Config) (req : Request)
      → NoSlash req
      → Spares I (health_check_handler env config req)
  unfolding health_check_handler
  health_check_handler-Spares config req free = Preserves-then (headers-Spares I) (
      Preserves-bind (Spares-call I (get_netmaster_version-Preserves config.netmaster_address))
        (λ v.
          written-Spares "failed to marshal health check response: "
            (env.health_json.marshal (health config.version v))))

  pub version_handler-Spares :
      (version : String) (req : Request) → NoSlash req → Spares I (version_handler env version req)
  unfolding version_handler
  version_handler-Spares version req free =
      Preserves-then (headers-Spares I) (written-Spares _ (env.version_json.marshal version))
