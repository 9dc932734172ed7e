-- ===== src/Connections/Vault.antt =====
-- Encryption of stored passwords: crates/app/src/features/connections/vault.rs. AES-256-GCM, the
-- decoding of hexadecimal text and UTF-8 are parameters.
use pairdbase.Common.{
  ℕ, Option, none, some, List, ◌++◌, Result, ok, err, ok_or, length, take, transpose, drop, ltb,
  ◌==◌, if◌then◌else◌, not,
}
use pairdbase.Text.{Text, codes}

-- The cipher under a key, with its conversions of text: each may fail, `as_bytes` but for.
pub record Cipher : Type 0 where
  pub seal : List ℕ → List ℕ → Option (List ℕ)
  pub unseal : List ℕ → List ℕ → Option (List ℕ)
  pub as_bytes : Text → List ℕ
  pub from_utf8 : List ℕ → Option Text

-- `Vault::new`, with the cipher that a key makes.
unfoldable pub vault_new : (Text → Option (List ℕ)) → (List ℕ → Cipher) → Text → Result Text Cipher
vault_new decode cipher_of hex_key = elim (decode hex_key) [
  | none ↦ err (codes "Vault encryption key must be valid hex")
  | some key_bytes ↦
      if not (length key_bytes == 32)
      then err (codes "Vault encryption key must be exactly 32 bytes (64 hex characters)")
      else ok (cipher_of key_bytes)
]

-- The nonce is the one that `Nonce::generate` gives.
unfoldable pub encrypt : Cipher → List ℕ → Text → Result Text (List ℕ)
encrypt c nonce plaintext = elim (c.seal nonce (c.as_bytes plaintext)) [
  | none ↦ err (codes "Encryption failed")
  | some ciphertext ↦ ok (nonce ++ ciphertext)
]

-- `decrypt` of data that is long enough.
unfoldable pub open_sealed : Cipher → List ℕ → Result Text Text
open_sealed c bytes = elim (c.unseal (take 12 bytes) (drop 12 bytes)) [
  | none ↦ err (codes "Decryption failed")
  | some plaintext ↦ ok_or (c.from_utf8 plaintext) (codes "Decrypted data is not valid UTF-8")
]

unfoldable pub decrypt : Cipher → List ℕ → Result Text Text
unfolding open_sealed
decrypt c bytes =
    if ltb (length bytes) 12 then err (codes "Encrypted data too short") else open_sealed c bytes

unfoldable pub encrypt_opt : Cipher → List ℕ → Option Text → Result Text (Option (List ℕ))
unfolding encrypt
encrypt_opt c nonce value = transpose (encrypt c nonce) value

unfoldable pub decrypt_opt : Cipher → Option (List ℕ) → Result Text (Option Text)
unfolding decrypt
decrypt_opt c bytes = transpose (decrypt c) bytes
