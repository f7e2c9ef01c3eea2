-- ===== src/Proxy/Responses/Reception.antt =====
-- What the client receives of the responses that `processStatusCodes` writes.
use auth_proxy.Prelude.{
  ℕ, ◌||◌, ◌≡◌, refl, String, List, [], ◌∷◌, some, nat_eq, Bool-cases, inl, inr,
}
use auth_proxy.Env.{Env}
use auth_proxy.Proxy.Exchange.{Exchange, emit, receive, receive_all, received}
use auth_proxy.Proxy.Responses.{enable_hsts, set_default_response_headers, process_status_codes}

abbrev pub default_headers : List (String × String)
default_headers =
    ("Content-Type", "application/json; charset=utf-8")
    ∷ ("Cache-Control", "no-store")
    ∷ ("Strict-Transport-Security", "max-age=15768000")
    ∷ []

-- If nothing was written before, the client of `processStatusCodes` receives the given status and the
-- three default headers, whatever the status and the text are.
pub process_status_codes-received :
    (env : Env) (n : ℕ) (resp : String) (x : Exchange env.World)
    → x.out ≡ []
    → ((received (process_status_codes env n resp x).1.out).status ≡ some n)
      × ((received (process_status_codes env n resp x).1.out).headers ≡ default_headers)
unfolding process_status_codes set_default_response_headers enable_hsts emit received receive
    receive_all
process_status_codes-received env n resp x h = elim (Bool-cases (nat_eq n 201 || nat_eq n 200)) [
  | inl shown ↦ rw (shown, h) (refl, refl)
  | inr not_shown ↦ elim (Bool-cases (nat_eq n 404 || nat_eq n 204)) [
    | inl bare ↦ rw (not_shown, bare, h) (refl, refl)
    | inr failed ↦ rw (not_shown, failed, h) (refl, refl)
  ]
]
