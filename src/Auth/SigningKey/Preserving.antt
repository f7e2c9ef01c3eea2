-- ===== src/Auth/SigningKey/Preserving.antt =====
-- Looking for the signing key, and the entry of the built-in administrator.
use auth_proxy.Prelude.{ℕ, zero, suc, ◌≡◌, String, append, [], ◌∷◌, some}
use auth_proxy.Errors.{Result, ok, err, is_key_not_found}
use auth_proxy.Exec.Preserves.{
  Preserves, Preserves-pure, Preserves-throw, Preserves-attempt, Preserves-always, Preserves-if,
  Preserves-bind, Preserves-then,
}
use auth_proxy.Driver.{StateDriver}
use auth_proxy.Env.{Env}
use auth_proxy.Env.Sparing.{Sparing, with_driver}
use auth_proxy.Crypto.Preserving.{encrypt-Preserves, decrypt-Preserves}
use auth_proxy.Db.Keys.{get_path, root_token_signing_key}
use auth_proxy.Auth.SigningKey.{
  character, characters, random_key, token_signing_key_length, generate_token_signing_key,
  existing_key, get_token_signing_key,
}

module _ (env : Env) {I : env.World → Type 0} (s : Sparing env I) where
  open env use {World, state_driver}

  random_key-Preserves : (n : ℕ) → Preserves I (random_key env n)
  unfolding random_key
  random_key-Preserves zero = Preserves-pure ""
  random_key-Preserves (suc n) =
      Preserves-bind (Preserves-always (env.intn 62) (s.packages.intn 62)) (λ i.
        Preserves-bind (random_key-Preserves n)
          (λ rest. Preserves-pure (append (character characters i) rest)))

  generate_token_signing_key-Preserves :
      (d : StateDriver World)
      → state_driver ≡ some d
      → Preserves I (generate_token_signing_key env d)
  unfolding generate_token_signing_key
  generate_token_signing_key-Preserves d at =
      Preserves-bind (random_key-Preserves token_signing_key_length) (λ key.
        Preserves-bind (encrypt-Preserves env s key) (λ encrypted.
          Preserves-then ((s.driver d at).write (get_path (root_token_signing_key ∷ [])) encrypted)
            (Preserves-pure key)))

  pub get_token_signing_key-Preserves : Preserves I (get_token_signing_key env)
  unfolding get_token_signing_key existing_key
  get_token_signing_key-Preserves = with_driver state_driver (λ d at.
      Preserves-bind
        (Preserves-attempt ((s.driver d at).read (get_path (root_token_signing_key ∷ []))))
        (after d at))
    where
      after :
          (d : StateDriver World)
          → state_driver ≡ some d
          → (r : Result String) → Preserves I (existing_key env d r)
      after d at (ok key) = decrypt-Preserves env s key
      after d at (err e) =
          Preserves-if (is_key_not_found e) (generate_token_signing_key-Preserves d at)
            (Preserves-throw e)
