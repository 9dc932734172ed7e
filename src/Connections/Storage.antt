-- ===== src/Connections/Storage.antt =====
-- What is read back of a connection that was created (crates/app/src/features/connections).
use pairdbase.Common.{
  ℕ, ◌^◌, ◌<◌, ◌≡◌, ◌≢◌, refl, true, false, Option, none, some, List, [], ◌∷◌, ◌++◌, ok, map_err,
  map_err-eq-ok, >>=-eq-ok, arith, length, find, any_of, ◌==◌, ap, ◌∙◌,
}
use pairdbase.Common.Int.{pos, wrap_i32}
use pairdbase.Common.Actions.{◌>>=◌, bind-ok, bind-run, bind-state, lift-Reads}
use pairdbase.Text.{Text, Unicode}
use pairdbase.Connections.Names.{db_from_str-as_str}
use pairdbase.Connections.Repository.{
  Store, Surroundings, is_stored, insert_row, insert_connection, passes_checks,
}
use pairdbase.Connections.Domain.{redis, sqlite, vault}
use pairdbase.Connections.Vault.{Cipher}
use pairdbase.Connections.Encryption.{IsSound, decrypt_opt-encrypt_opt}
use pairdbase.Connections.Rows.{
  Connection, ConnectionRow, Secrets, map_connection, row_of, encrypt_secret, encrypt_secrets,
  decrypt_optional, decrypt_secrets, low_bits, as_u16, port_i32,
}

low_bits-wrap_i32 : (n : ℕ) → n < 2 ^ 32 → low_bits 32 (wrap_i32 (pos n)) ≡ n
unfolding low_bits wrap_i32
low_bits-wrap_i32 n h = ground arith

low_bits-pos : (n : ℕ) → n < 2 ^ 16 → low_bits 16 (pos n) ≡ n
unfolding low_bits
low_bits-pos n h = ground arith

abbrev IsPort : Option ℕ → Type 0
IsPort none = Unit
IsPort (some p) = p < 2 ^ 16

as_u16-port_i32 : (p : Option ℕ) → IsPort p → as_u16 (port_i32 p) ≡ p
as_u16-port_i32 none h = refl
as_u16-port_i32 (some p) h = rw (low_bits-pos p h)

-- The numbers of a connection are in the ranges of their types.
pub record IsTyped (c : Connection) : Type 0 where
  pub port : IsPort c.port
  pub ssh_port : IsPort c.ssh_port
  pub pool_min : c.pool_min < 2 ^ 32
  pub pool_max : c.pool_max < 2 ^ 32

-- What was put into Secrets (Option Text).
abbrev pub secrets_of : Connection → Secrets (Option Text)
secrets_of c = record {
  password = c.password;
  ssl_ca_cert = c.ssl_ca_cert;
  ssl_client_cert = c.ssl_client_cert;
  ssl_client_key = c.ssl_client_key;
  ssh_private_key = c.ssh_private_key;
}

module _ (c : Cipher) (sound : IsSound c) (nonces : ℕ → List ℕ)
    (long : (i : ℕ) → length (nonces i) ≡ 12) where
  pub decrypt_optional-encrypt_secret :
      (i : ℕ) (value : Option Text) (stored : Option (List ℕ))
      → encrypt_secret c (nonces i) value ≡ ok stored
      → decrypt_optional c stored ≡ ok value
  unfolding encrypt_secret decrypt_optional
  decrypt_optional-encrypt_secret i value stored h =
      ap (map_err vault)
        (decrypt_opt-encrypt_opt c (nonces i) value stored sound (long i) (map_err-eq-ok _ _ h))

  pub decrypt_secrets-encrypt_secrets :
      (conn : Connection) (row : ConnectionRow) (s : Secrets (Option (List ℕ)))
      → encrypt_secrets c nonces conn ≡ ok s
      → row.password ≡ s.password
      → row.ssl_ca_cert ≡ s.ssl_ca_cert
      → row.ssl_client_cert ≡ s.ssl_client_cert
      → row.ssl_client_key ≡ s.ssl_client_key
      → row.ssh_private_key ≡ s.ssh_private_key
      → decrypt_secrets c row ≡ ok (secrets_of conn)
  unfolding encrypt_secrets decrypt_secrets
  decrypt_secrets-encrypt_secrets conn row s h e0 e1 e2 e3 e4 =
      let (s0, a0, h0) = >>=-eq-ok (encrypt_secret c (nonces 0) conn.password) _ h in
      let (s1, a1, h1) = >>=-eq-ok (encrypt_secret c (nonces 1) conn.ssl_ca_cert) _ h0 in
      let (s2, a2, h2) = >>=-eq-ok (encrypt_secret c (nonces 2) conn.ssl_client_cert) _ h1 in
      let (s3, a3, h3) = >>=-eq-ok (encrypt_secret c (nonces 3) conn.ssl_client_key) _ h2 in
      let (s4, a4, h4) = >>=-eq-ok (encrypt_secret c (nonces 4) conn.ssh_private_key) _ h3 in
      let d0 = decrypt_optional-encrypt_secret 0 conn.password s0 a0 in
      let d1 = decrypt_optional-encrypt_secret 1 conn.ssl_ca_cert s1 a1 in
      let d2 = decrypt_optional-encrypt_secret 2 conn.ssl_client_cert s2 a2 in
      let d3 = decrypt_optional-encrypt_secret 3 conn.ssl_client_key s3 a3 in
      let d4 = decrypt_optional-encrypt_secret 4 conn.ssh_private_key s4 a4 in ground arith

-- What the table makes of a connection at the time of its creation.
abbrev pub stored_as : Connection → ℕ → Connection
stored_as c now = record c {
  created_at = now;
  updated_by = none;
  updated_at = none;
  is_soft_deleted = false;
  deleted_by = none;
  deleted_at = none;
}

module _ (u : Unicode) (c : Cipher) (sound : IsSound c) (nonces : ℕ → List ℕ)
    (long : (i : ℕ) → length (nonces i) ≡ 12) (conn : Connection) (typed : IsTyped conn) where
  pub map_connection-row_of :
      (s : Secrets (Option (List ℕ))) (now : ℕ)
      → conn.db_type ≢ redis
      → conn.db_type ≢ sqlite
      → encrypt_secrets c nonces conn ≡ ok s
      → map_connection u c (row_of conn s now) ≡ ok (stored_as conn now)
  unfolding map_connection
  map_connection-row_of s now not_redis not_sqlite h =
      let kind = (db_from_str-as_str u).0 conn.db_type not_redis not_sqlite in
      let secrets =
        decrypt_secrets-encrypt_secrets c sound nonces long conn (row_of conn s now) s h refl refl
          refl refl refl in
      let port = as_u16-port_i32 conn.port typed.port in
      let ssh_port = as_u16-port_i32 conn.ssh_port typed.ssh_port in
      let pool_min = low_bits-wrap_i32 conn.pool_min typed.pool_min in
      let pool_max = low_bits-wrap_i32 conn.pool_max typed.pool_max in
      rw (kind, secrets, port, ssh_port, pool_min, pool_max)

new-is_stored :
    (c : Connection) (s : Secrets (Option (List ℕ))) (now : ℕ)
    → is_stored c.id (row_of c s now) ≡ true
unfolding is_stored
new-is_stored c s now = ground arith

find-append-new :
    (id : ℕ) (new : ConnectionRow) (rows : List ConnectionRow)
    → any_of (λ r. r.id == id) rows ≡ false
    → is_stored id new ≡ true
    → find (is_stored id) (rows ++ new ∷ []) ≡ some new
unfolding is_stored
find-append-new id new [] n h = ground arith
find-append-new id new (r ∷ rs) n h = ground (arith, find-append-new id new rs)

-- A new row is found under its id.
pub find_new :
    (c : Connection) (s : Secrets (Option (List ℕ))) (now : ℕ) (rows : List ConnectionRow)
    → any_of (λ r. r.id == c.id) rows ≡ false
    → find (is_stored c.id) (rows ++ row_of c s now ∷ []) ≡ some (row_of c s now)
find_new c s now rows n = find-append-new c.id (row_of c s now) rows n (new-is_stored c s now)

module _ {D M : Type 0} (x : Surroundings D M) where
  pub insert_row-run :
      (i : ℕ) (row : ConnectionRow) (t : Store D)
      → (insert_row x i row t).1 ≡ ok tt
      → (any_of (λ r. r.id == row.id) t.rows ≡ false)
        × (passes_checks row ≡ true)
        × ((insert_row x i row t).0 ≡ record t { rows = t.rows ++ row ∷ [] })
  unfolding insert_row ◌>>=◌
  insert_row-run i row t h = (ground arith, ground arith, ground arith)

  -- What an insertion without an error has done.
  pub record IsInserted (i : ℕ) (c : Connection) (before after : Store D) : Type 0 where
    pub secrets : Secrets (Option (List ℕ))
    pub sealed : encrypt_secrets x.cipher x.nonces c ≡ ok secrets
    pub fresh : any_of (λ r. r.id == c.id) before.rows ≡ false
    pub checked : passes_checks (row_of c secrets (x.clock i)) ≡ true
    pub added : after ≡ record before { rows = before.rows ++ row_of c secrets (x.clock i) ∷ [] }

  pub insert_connection-run :
      (i : ℕ) (c : Connection) (t : Store D) (answer : Connection)
      → (insert_connection x i c t).1 ≡ ok answer
      → (answer ≡ c) × IsInserted i c t (insert_connection x i c t).0
  unfolding insert_connection
  insert_connection-run i c t answer h =
      let sealing = encrypt_secrets x.cipher x.nonces c in
      let (secrets, a, h1) = bind-ok _ _ t (lift-Reads (Store D) sealing) h in
      let (_, b, d, e) = bind-run _ _ t h1 in
      let (fresh, checked, run) = insert_row-run i (row_of c secrets (x.clock i)) t b in
      (
        ground arith,
        record {
          secrets = secrets;
          sealed = a;
          fresh = fresh;
          checked = checked;
          added = bind-state _ _ t (lift-Reads (Store D) sealing) a ∙ e ∙ run;
        },
      )
