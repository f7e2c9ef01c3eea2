-- ===== src/Crypto/Secrets.antt =====
-- Encryption and decryption of secrets (common/crypto.go).
use auth_proxy.Prelude.{
  false, Bool-cases, inl, inr, ◌≡◌, refl, ◌∙◌, sym, String, Option, none, some,
}
use auth_proxy.Errors.{is_key_not_found, ok, Result-cases}
use auth_proxy.Text.{is_empty}
use auth_proxy.Globals
use auth_proxy.Env.{Env}
use auth_proxy.Crypto.{key_file, get_private_key, encrypt_with, encrypt, decrypt_with, decrypt}

-- What is needed of the packages: the file with the key does not change, RSA decrypts what it has
-- encrypted, and base64 decodes what it has encoded; what RSA has encrypted is not blank in base64.
pub record KeepsSecrets (env : Env) : Type 0 where
  pub same_file :
      (name : String) (w w' : env.World) → (env.read_file name w).0 ≡ (env.read_file name w').0
  pub decrypts :
      (k : env.PrivateKey) (p c : String) (w w' : env.World)
      → (env.encrypt_oaep k p w).0 ≡ ok c
      → (env.decrypt_oaep k c w').0 ≡ ok p
  pub decodes : (c : String) → env.base64_decode (env.base64_encode c) ≡ ok c
  pub not_blank :
      (k : env.PrivateKey) (p c : String) (w : env.World)
      → (env.encrypt_oaep k p w).0 ≡ ok c
      → is_empty (env.base64_encode c) ≡ false

module _ (env : Env) (secrets : KeepsSecrets env) where
  same_key : (w w' : env.World) → (get_private_key env w).0 ≡ (get_private_key env w').0
  unfolding get_private_key key_file
  same_key w w' = elim (Result-cases (Globals.get env.global "tls_key_file")) [
    | inr (e, bad) ↦ elim (Bool-cases (is_key_not_found e)) [
      | inl missing ↦ rw (bad, missing) refl
      | inr other ↦ rw (bad, other) refl
    ]
    | inl (name, good) ↦ elim (Result-cases (env.read_file name w).0) [
      | inr (e, unread) ↦ rw (good, unread, sym (secrets.same_file name w w') ∙ unread) refl
      | inl (pem, read) ↦ rw (good, read, sym (secrets.same_file name w w') ∙ read) refl
    ]
  ]

  decrypt_with-encrypt_with :
      (p c : String) (key : Option env.PrivateKey) (w w' : env.World)
      → is_empty p ≡ false
      → (encrypt_with env p key w).0 ≡ ok c
      → ((decrypt_with env c key w').0 ≡ ok p) × (is_empty c ≡ false)
  unfolding encrypt_with decrypt_with
  decrypt_with-encrypt_with p c none w w' full h =
      let same : p ≡ c = cc h in rw (← same) (refl, full)
  decrypt_with-encrypt_with p c (some k) w w' full h =
      elim (Result-cases (env.encrypt_oaep k p w).0) [
        | inr (e, bad) ↦ cc (rw bad at h)
        | inl (x, good) ↦
            let same : env.base64_encode x ≡ c = cc (rw good at h) in
            rw (← same) (
              rw (secrets.decodes x) (secrets.decrypts k p x w w' good),
              secrets.not_blank k p x w good,
            )
      ]

  -- What `Encrypt` returns is decrypted to the text that was encrypted, at any later time, also if the
  -- key's file has no key.
  pub decrypt-encrypt :
      (p c : String) (w w' : env.World) → (encrypt env p w).0 ≡ ok c → (decrypt env c w').0 ≡ ok p
  unfolding encrypt decrypt
  decrypt-encrypt p c w w' h = elim (Bool-cases (is_empty p)) [
    | inl blank ↦ let same : p ≡ c = cc (rw blank at h) in rw (← same) (rw blank refl)
    | inr full ↦ elim (Result-cases (get_private_key env w).0) [
      | inr (e, bad) ↦ cc (rw (full, bad) at h)
      | inl (key, good) ↦
          let (back, not_blank) =
            decrypt_with-encrypt_with p c key (get_private_key env w).1 (get_private_key env w').1
              full (rw (full, good) at h) in
          rw (not_blank, sym (same_key w w') ∙ good) back
    ]
  ]
