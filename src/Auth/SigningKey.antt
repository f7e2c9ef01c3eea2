-- ===== src/Auth/SigningKey.antt =====
-- auth/token.go: the key that signs tokens, which the store holds encrypted.
pub mod Preserving
use Prim.Native.String.{[] as empty, ◌∷◌ as char}
use auth_proxy.Prelude.{ℕ, zero, suc, String, append, [], ◌∷◌, if◌then◌else◌}
use auth_proxy.Errors.{is_key_not_found, Result, ok, err}
use auth_proxy.Exec.{Exec, pure, throw, attempt, always, ◌>>=◌, ◌>>◌}
use auth_proxy.Driver.{StateDriver, get_state_driver}
use auth_proxy.Env.{Env}
use auth_proxy.Crypto.{encrypt, decrypt}
use auth_proxy.Db.Keys.{get_path, root_token_signing_key}

abbrev pub token_signing_key_length : ℕ
token_signing_key_length = 128

-- The alphabet of keys.
abbrev characters : String
characters = "abcdefghijklmnopqrstuvwxyzABCDEFGHIJKLMNOPQRSTUVWXYZ1234567890"

-- `characters[i]`
character : String → ℕ → String
character empty i = ""
character (char c s) zero = char c ""
character (char c s) (suc i) = character s i

module _ (env : Env) where
  open env use {World, state_driver, intn}

  -- The loop of `generateTokenSigningKey`.
  unfoldable pub random_key : ℕ → Exec World String
  unfolding character
  random_key zero = pure ""
  random_key (suc n) = do
    i ← always (intn 62)
    rest ← random_key n
    pure (append (character characters i) rest)

  -- `generateTokenSigningKey`
  unfoldable pub generate_token_signing_key : StateDriver World → Exec World String
  generate_token_signing_key state_drv = do
    key ← random_key token_signing_key_length
    encrypted_key ← encrypt env key
    state_drv.write (get_path (root_token_signing_key ∷ [])) encrypted_key
    pure key

  existing_key : StateDriver World → Result String → Exec World String
  existing_key state_drv (ok key) = decrypt env key
  existing_key state_drv (err e) =
      if is_key_not_found e then generate_token_signing_key state_drv else throw e

  -- `getTokenSigningKey`
  unfoldable pub get_token_signing_key : Exec World String
  unfolding existing_key get_state_driver
  get_token_signing_key = do
    state_drv ← get_state_driver state_driver
    r ← attempt (state_drv.read (get_path (root_token_signing_key ∷ [])))
    existing_key state_drv r
