-- ===== src/Crypto/Preserving.antt =====
-- Hashing and encrypting, and conditions on the world.
use auth_proxy.Prelude.{String, Option, none, some}
use auth_proxy.Errors.{Result, ok, err, is_key_not_found}
use auth_proxy.Exec.Preserves.{
  Preserves, Preserves-pure, Preserves-throw, Preserves-lift, Preserves-if, Preserves-bind,
}
use auth_proxy.Text.{is_empty}
use auth_proxy.Env.{Env}
use auth_proxy.Env.Sparing.{Sparing}
use auth_proxy.Globals
use auth_proxy.Crypto.{
  gen_password_hash, key_file, get_private_key, encrypt_with, encrypt, decrypt_with, decrypt,
}

module _ (env : Env) {I : env.World → Type 0} (s : Sparing env I) where
  pub gen_password_hash-Preserves : (p : String) → Preserves I (gen_password_hash env p)
  unfolding gen_password_hash
  gen_password_hash-Preserves p = s.packages.generate_from_password p

  key_file-Preserves : (r : Result String) → Preserves I (key_file env r)
  unfolding key_file
  key_file-Preserves (ok name) = Preserves-pure name
  key_file-Preserves (err e) =
      Preserves-if (is_key_not_found e) (Preserves-throw _) (Preserves-throw e)

  get_private_key-Preserves : Preserves I (get_private_key env)
  unfolding get_private_key
  get_private_key-Preserves =
      Preserves-bind (key_file-Preserves (Globals.get env.global "tls_key_file"))
        (λ name. Preserves-bind (s.packages.read_file name) (λ pem. Preserves-lift _))

  encrypt_with-Preserves :
      (t : String) (key : Option env.PrivateKey) → Preserves I (encrypt_with env t key)
  unfolding encrypt_with
  encrypt_with-Preserves t none = Preserves-pure t
  encrypt_with-Preserves t (some key) =
      Preserves-bind (s.packages.encrypt_oaep key t) (λ e. Preserves-pure _)

  pub encrypt-Preserves : (t : String) → Preserves I (encrypt env t)
  unfolding encrypt
  encrypt-Preserves t =
      Preserves-if (is_empty t) (Preserves-pure t)
        (Preserves-bind get_private_key-Preserves (encrypt_with-Preserves t))

  decrypt_with-Preserves :
      (t : String) (key : Option env.PrivateKey) → Preserves I (decrypt_with env t key)
  unfolding decrypt_with
  decrypt_with-Preserves t none = Preserves-pure t
  decrypt_with-Preserves t (some key) =
      Preserves-bind (Preserves-lift _) (λ e. s.packages.decrypt_oaep key e)

  pub decrypt-Preserves : (t : String) → Preserves I (decrypt env t)
  unfolding decrypt
  decrypt-Preserves t =
      Preserves-if (is_empty t) (Preserves-pure t)
        (Preserves-bind get_private_key-Preserves (decrypt_with-Preserves t))
