-- ===== src/Proxy/Responses/Preserving.antt =====
-- Writing a response, and conditions on the world.
use auth_proxy.Prelude.{ℕ, ◌||◌, String, nat_eq}
use auth_proxy.Errors.{Error}
use auth_proxy.Exec.Preserves.{Preserves-if, Preserves-then}
use auth_proxy.Env.{Env}
use auth_proxy.Proxy.Exchange.Preserving.{Spares, Spares-emit}
use auth_proxy.Proxy.Responses.{
  enable_hsts, set_default_response_headers, auth_error, server_error, process_status_codes,
}

pub enable_hsts-Spares : {W : Type 0} (I : W → Type 0) → Spares I enable_hsts
unfolding enable_hsts
enable_hsts-Spares I = Spares-emit I _

pub headers-Spares : {W : Type 0} (I : W → Type 0) → Spares I set_default_response_headers
unfolding set_default_response_headers
headers-Spares I =
    Preserves-then (Spares-emit I _) (Preserves-then (Spares-emit I _) (enable_hsts-Spares I))

module _ (env : Env) (I : env.World → Type 0) where
  pub auth_error-Spares : (n : ℕ) (msg : String) → Spares I (auth_error env n msg)
  unfolding auth_error
  auth_error-Spares n msg = Preserves-then (Spares-emit I _) (Spares-emit I _)

  pub server_error-Spares : (e : Error) → Spares I (server_error env e)
  unfolding server_error
  server_error-Spares e = Preserves-then (Spares-emit I _) (Spares-emit I _)

  pub process_status_codes-Spares :
      (n : ℕ) (resp : String) → Spares I (process_status_codes env n resp)
  unfolding process_status_codes
  process_status_codes-Spares n resp = Preserves-then (headers-Spares I) (
      Preserves-if (nat_eq n 201 || nat_eq n 200)
        (Preserves-then (Spares-emit I _) (Spares-emit I _))
        (Preserves-if (nat_eq n 404 || nat_eq n 204) (Spares-emit I _)
          (Preserves-then (Spares-emit I _) (Spares-emit I _))))
