-- ===== src/Proxy/Status/Answers.antt =====
-- The health and version endpoints: the statuses of the replies.
use auth_proxy.Prelude.{ℕ, ◌≡◌, refl, true, false, String}
use auth_proxy.Errors.{Result, ok, err}
use auth_proxy.Env.{Env, Request, Config}
use auth_proxy.Proxy.Exchange.Answers.{
  Answers, Answers-bind, Answers-then, Answers-call, Answers-body,
}
use auth_proxy.Proxy.Responses.Answers.{is_own, headers-Answers, server_error-Answers}
use auth_proxy.Proxy.Status.{
  health, get_netmaster_version, written, health_check_handler, version_handler,
}

module _ (env : Env) {P : ℕ → Type 0} (own : (n : ℕ) → is_own n ≡ true → P n) where
  written-Answers :
      (prefix : String) (r : Result String) → Answers P false (λ _. true) (written env prefix r)
  unfolding written is_own
  written-Answers prefix (ok body) = Answers-body body (own 200 refl)
  written-Answers prefix (err e) = server_error-Answers env _ (own 500 refl)

  pub health_check_handler-Answers :
      (config : Config) (req : Request)
      → Answers P false (λ _. true) (health_check_handler env config req)
  unfolding health_check_handler
  health_check_handler-Answers config req = Answers-then false _ _ (headers-Answers false) (
      Answers-bind (λ _. false) _ _
        (Answers-call false (get_netmaster_version env config.netmaster_address))
        (λ v. written-Answers _ (env.health_json.marshal (health config.version v))))

  pub version_handler-Answers :
      (version : String) (req : Request)
      → Answers P false (λ _. true) (version_handler env version req)
  unfolding version_handler
  version_handler-Answers version req =
      Answers-then false _ _ (headers-Answers false)
        (written-Answers _ (env.version_json.marshal version))
