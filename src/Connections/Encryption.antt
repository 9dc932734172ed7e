-- ===== src/Connections/Encryption.antt =====
-- What is read back from the vault (crates/app/src/features/connections/vault.rs).
use pairdbase.Common.{
  Option-cases, Result-cases, inl, inr, ℕ, ◌≡◌, refl, Option, none, some, List, [], ◌∷◌, ◌++◌, ok,
  length, take, drop, ltb, arith, false, ap,
}
use pairdbase.Text.{Text}
use pairdbase.Connections.Vault.{Cipher, encrypt, decrypt, open_sealed, encrypt_opt, decrypt_opt}

-- What the cipher and UTF-8 promise: under one nonce what was sealed is unsealed, and the bytes of a
-- text are read as the text.
pub record IsSound (c : Cipher) : Type 0 where
  pub unseals :
      (nonce plain sealed : List ℕ)
      → c.seal nonce plain ≡ some sealed
      → c.unseal nonce sealed ≡ some plain
  pub reads : (s : Text) → c.from_utf8 (c.as_bytes s) ≡ some s

take-append : (xs ys : List ℕ) → take (length xs) (xs ++ ys) ≡ xs
take-append [] ys = refl
take-append (x ∷ xs) ys = ap (λ z. x ∷ z) (take-append xs ys)

drop-append : (xs ys : List ℕ) → drop (length xs) (xs ++ ys) ≡ ys
drop-append [] ys = refl
drop-append (x ∷ xs) ys = drop-append xs ys

long_enough : (xs ys : List ℕ) → ltb (length (xs ++ ys)) (length xs) ≡ false
long_enough [] ys = ground arith
long_enough (x ∷ xs) ys = ground (arith, long_enough xs ys)

decrypt-encrypt :
    (c : Cipher) (nonce : List ℕ) (plaintext : Text) (bytes : List ℕ)
    → IsSound c
    → length nonce ≡ 12
    → encrypt c nonce plaintext ≡ ok bytes
    → decrypt c bytes ≡ ok plaintext
unfolding encrypt decrypt open_sealed
decrypt-encrypt c nonce plaintext bytes sound n h =
    elim (Option-cases (c.seal nonce (c.as_bytes plaintext))) [
      | inl e ↦ absurd (ground arith)
      | inr (ciphertext, e) ↦
          let a = take-append nonce ciphertext in
          let b = drop-append nonce ciphertext in
          let d = long_enough nonce ciphertext in
          let f = sound.unseals nonce (c.as_bytes plaintext) ciphertext e in
          let g = sound.reads plaintext in ground arith
    ]

-- Under a sound cipher and a nonce of twelve bytes, what encrypt_opt makes of a value decrypt_opt
-- reads back as the value, also where there is none.
pub decrypt_opt-encrypt_opt :
    (c : Cipher) (nonce : List ℕ) (value : Option Text) (stored : Option (List ℕ))
    → IsSound c
    → length nonce ≡ 12
    → encrypt_opt c nonce value ≡ ok stored
    → decrypt_opt c stored ≡ ok value
unfolding encrypt_opt decrypt_opt
decrypt_opt-encrypt_opt c nonce none stored sound n h = ground arith
decrypt_opt-encrypt_opt c nonce (some v) stored sound n h =
    elim (Result-cases (encrypt c nonce v)) [
      | inl (bytes, k) ↦ (let d = decrypt-encrypt c nonce v bytes sound n k in ground arith)
      | inr (e, k) ↦ absurd (ground arith)
    ]
