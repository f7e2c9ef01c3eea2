-- ===== src/Crypto.antt =====
-- common/crypto.go: password hashes, and the encryption of secrets that the store holds.
pub mod Preserving
pub mod Secrets
use auth_proxy.Prelude.{Bool, String, Option, none, some, if◌then◌else◌}
use auth_proxy.Errors.{errorf, is_key_not_found, Result, ok, err}
use auth_proxy.Exec.{Exec, pure, throw, lift, ◌>>=◌}
use auth_proxy.Text.{is_empty}
use auth_proxy.Globals
use auth_proxy.Env.{Env}

module _ (env : Env) where
  open env use {
    World, generate_from_password, compare_hash_and_password, global, PrivateKey, read_file,
    pem_decode, parse_pkcs8, parse_pkcs1, encrypt_oaep, decrypt_oaep, base64_encode, base64_decode,
  }

  -- `GenPasswordHash`
  unfoldable pub gen_password_hash : String → Exec World String
  gen_password_hash password = generate_from_password password

  -- `ValidatePassword`
  unfoldable pub validate_password : String → String → Bool
  validate_password password password_hash = compare_hash_and_password password_hash password

  -- The end of `getPrivateKey`: the PKCS8 parser, then the PKCS1 parser. A key of another kind than
  -- RSA, at which the program panics, counts as one that the first parser refuses.
  parse_key : String → Result (Option PrivateKey)
  parse_key block = elim (parse_pkcs8 block) [
    | ok key ↦ ok (some key)
    | err _ ↦ elim (parse_pkcs1 block) [ ok key ↦ ok (some key) | err e ↦ err e ]
  ]

  parse_block : Option String → Result (Option PrivateKey)
  parse_block none = ok none
  parse_block (some block) = parse_key block

  key_file : Result String → Exec World String
  key_file (ok name) = pure name
  key_file (err e) = if is_key_not_found e then throw (errorf "No TLS key file found") else throw e

  -- `getPrivateKey`; without PEM data both the key and the error are nil.
  unfoldable pub get_private_key : Exec World (Option PrivateKey)
  unfolding parse_block parse_key key_file
  get_private_key = do
    name ← key_file (Globals.get global "tls_key_file")
    pem_data ← read_file name
    lift (parse_block (pem_decode pem_data))

  encrypt_with : String → Option PrivateKey → Exec World String
  encrypt_with text none = pure text
  encrypt_with text (some key) = do
    encrypted ← encrypt_oaep key text
    pure (base64_encode encrypted)

  -- `Encrypt`
  unfoldable pub encrypt : String → Exec World String
  unfolding encrypt_with
  encrypt text =
      if is_empty text then pure text else do key ← get_private_key; encrypt_with text key

  decrypt_with : String → Option PrivateKey → Exec World String
  decrypt_with text none = pure text
  decrypt_with text (some key) = do
    encrypted ← lift (base64_decode text)
    decrypt_oaep key encrypted

  -- `Decrypt`
  unfoldable pub decrypt : String → Exec World String
  unfolding decrypt_with
  decrypt text =
      if is_empty text then pure text else do key ← get_private_key; decrypt_with text key
