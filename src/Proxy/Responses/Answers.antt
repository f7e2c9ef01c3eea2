-- ===== src/Proxy/Responses/Answers.antt =====
-- The statuses that the proxy itself answers with.
use auth_proxy.Prelude.{ℕ, ◌≡◌, Bool, true, false, ◌||◌, String, [], ◌∷◌, any, nat_eq}
use auth_proxy.Errors.{Error}
use auth_proxy.Env.{Env}
use auth_proxy.Proxy.Exchange.Answers.{
  Answers, Answers-if, Answers-then, Answers-header, Answers-status, Answers-emit,
}
use auth_proxy.Proxy.Responses.{
  enable_hsts, set_default_response_headers, auth_error, server_error, process_status_codes,
}

-- The statuses that are named in proxy/handlers.go and proxy/helpers.go.
unfoldable pub is_own : ℕ → Bool
unfolding any
is_own n = any (nat_eq n) (200 ∷ 201 ∷ 204 ∷ 400 ∷ 401 ∷ 403 ∷ 404 ∷ 500 ∷ [])

-- A reply of a helper with such a status.
abbrev pub OwnReply : ℕ × String → Type 0
OwnReply reply = is_own reply.0 ≡ true

module _ {P : ℕ → Type 0} where
  pub headers-Answers :
      {W : Type 0} (b : Bool) → Answers {W = W} P b (λ _. b) set_default_response_headers
  unfolding set_default_response_headers enable_hsts
  headers-Answers b =
      Answers-then b _ _ (Answers-header b _ _)
        (Answers-then b _ _ (Answers-header b _ _) (Answers-header b _ _))

  module _ (env : Env) where
    pub auth_error-Answers :
        (n : ℕ) (msg : String) → P n → Answers P false (λ _. true) (auth_error env n msg)
    unfolding auth_error
    auth_error-Answers n msg p = Answers-then true _ _ (Answers-status n p) (Answers-emit _)

    pub server_error-Answers :
        (e : Error) → P 500 → Answers P false (λ _. true) (server_error env e)
    unfolding server_error
    server_error-Answers e p = Answers-then true _ _ (Answers-status 500 p) (Answers-emit _)

    pub process_status_codes-Answers :
        (n : ℕ) (resp : String)
        → P n
        → Answers P false (λ _. true) (process_status_codes env n resp)
    unfolding process_status_codes
    process_status_codes-Answers n resp p = Answers-then false _ _ (headers-Answers false) (
        Answers-if (nat_eq n 201 || nat_eq n 200) _ _
          (Answers-then true _ _ (Answers-status n p) (Answers-emit _))
          (Answers-if (nat_eq n 404 || nat_eq n 204) _ _ (Answers-status n p)
            (Answers-then true _ _ (Answers-status n p) (Answers-emit _))))
