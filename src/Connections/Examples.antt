-- ===== src/Connections/Examples.antt =====
-- The theorems about connections at concrete names and versions.
mod Storing
use pairdbase.Common.{ok, some, [], List, ℕ, none, inr, refl, ◌++◌, ◌∷◌, arith, ◌≡◌}
use pairdbase.Text.{decimal, is_ascii_digit, codes}
use pairdbase.Connections.Vault.{Cipher, encrypt, encrypt_opt, decrypt_opt}
use pairdbase.Connections.Encryption.{IsSound, decrypt_opt-encrypt_opt}
use pairdbase.Connections.Versions.{ServerVersion, parse}
use pairdbase.Connections.Versions.Parsing.{parse-decimal}
use pairdbase.Connections.Versions.Upgrade.{
  Within, flags, capabilities, mysql_server, capabilities-Within,
}

-- A server before and after an upgrade.
abbrev old_server : ServerVersion
old_server = record { major = 8; minor = 0; patch = 32; raw = codes "8.0.32-0ubuntu" }

abbrev new_server : ServerVersion
new_server = record { major = 8; minor = 4; patch = 0; raw = codes "8.4.0" }

-- A cipher that puts a tag before the bytes, on texts of ASCII.
abbrev tagging : Cipher
tagging = record {
  seal = λ nonce plain. some (17 ∷ plain);
  unseal = λ nonce sealed. elim sealed [ [] ↦ none | tag ∷ plain ↦ some plain ];
  as_bytes = λ s. s;
  from_utf8 = λ bytes. some bytes;
}

tagging-IsSound : IsSound tagging
tagging-IsSound = record { unseals = λ nonce plain sealed h. ground arith; reads = λ s. refl }

abbrev nonce : List ℕ
nonce = 1 ∷ 2 ∷ 3 ∷ 4 ∷ 5 ∷ 6 ∷ 7 ∷ 8 ∷ 9 ∷ 10 ∷ 11 ∷ 12 ∷ []

abbrev sealed : List ℕ
sealed = nonce ++ 17 ∷ codes "secret"

sealing : encrypt_opt tagging nonce (some (codes "secret")) ≡ ok (some sealed)
unfolding encrypt_opt encrypt
sealing = refl
