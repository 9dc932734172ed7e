-- ===== src/Connections/Rows.antt =====
-- Connections and their rows: Connection, ConnectionRow and ConnectionView of
-- crates/app/src/features/connections/domain.rs, and what repository.rs reads from a row and writes
-- into one. A secret is text in a connection and a list of bytes in a row.
use pairdbase.Common.{
  ℕ, ◌-◌, ◌%◌, ◌^◌, Bool, false, Option, none, some, List, [], ◌∷◌, Result, ok, map_err, ◌>>=◌,
}
use pairdbase.Common.Int.{ℤ, pos, negsuc, wrap_i32}
use pairdbase.Text.{Text, codes, Unicode, match_text}
use pairdbase.Connections.Domain.{
  DbType, SslMode, disable, allow, prefer, require, verify_ca, verify_full, ConnectionError, vault,
  invalid_db_type, db_as_str, db_from_str,
}
use pairdbase.Connections.Vault.{Cipher, decrypt_opt, encrypt_opt}

pub record Connection : Type 0 where
  pub id : ℕ
  pub organization_id : ℕ
  pub workspace_id : ℕ
  pub name : Text
  pub db_type : DbType
  pub host : Option Text
  pub port : Option ℕ
  pub database_name : Option Text
  pub username : Option Text
  pub password : Option Text
  pub ssl_mode : Text
  pub ssl_ca_cert : Option Text
  pub ssl_client_cert : Option Text
  pub ssl_client_key : Option Text
  pub ssh_enabled : Bool
  pub ssh_host : Option Text
  pub ssh_port : Option ℕ
  pub ssh_user : Option Text
  pub ssh_private_key : Option Text
  pub read_only : Bool
  pub color : Option Text
  pub pool_min : ℕ
  pub pool_max : ℕ
  pub created_by : ℕ
  pub created_at : ℕ
  pub updated_by : Option ℕ
  pub updated_at : Option ℕ
  pub is_soft_deleted : Bool
  pub deleted_by : Option ℕ
  pub deleted_at : Option ℕ

pub record ConnectionRow : Type 0 where
  pub id : ℕ
  pub organization_id : ℕ
  pub workspace_id : ℕ
  pub name : Text
  pub db_type : Text
  pub host : Option Text
  pub port : Option ℤ
  pub database_name : Option Text
  pub username : Option Text
  pub password : Option (List ℕ)
  pub ssl_mode : Text
  pub ssl_ca_cert : Option (List ℕ)
  pub ssl_client_cert : Option (List ℕ)
  pub ssl_client_key : Option (List ℕ)
  pub ssh_enabled : Bool
  pub ssh_host : Option Text
  pub ssh_port : Option ℤ
  pub ssh_user : Option Text
  pub ssh_private_key : Option (List ℕ)
  pub read_only : Bool
  pub color : Option Text
  pub pool_min : ℤ
  pub pool_max : ℤ
  pub created_by : ℕ
  pub created_at : ℕ
  pub updated_by : Option ℕ
  pub updated_at : Option ℕ
  pub is_soft_deleted : Bool
  pub deleted_by : Option ℕ
  pub deleted_at : Option ℕ

pub record ConnectionView : Type 0 where
  pub id : ℕ
  pub workspace_id : ℕ
  pub name : Text
  pub db_type : Text
  pub host : Option Text
  pub port : Option ℕ
  pub database_name : Option Text
  pub username : Option Text
  pub ssl_mode : SslMode
  pub ssh_enabled : Bool
  pub read_only : Bool
  pub color : Option Text
  pub created_at : ℕ

abbrev view_modes : List (Text × SslMode)
view_modes =
    (codes "prefer", prefer)
    ∷ (codes "allow", allow)
    ∷ (codes "require", require)
    ∷ (codes "verify-ca", verify_ca)
    ∷ (codes "verify-full", verify_full)
    ∷ []

unfoldable pub view_mode : Text → SslMode
unfolding match_text
view_mode s = elim (match_text s view_modes) [ none ↦ disable | some mode ↦ mode ]

-- `ConnectionView::from`.
unfoldable pub view_of : Connection → ConnectionView
unfolding db_as_str view_mode
view_of c = record {
  id = c.id;
  workspace_id = c.workspace_id;
  name = c.name;
  db_type = db_as_str c.db_type;
  host = c.host;
  port = c.port;
  database_name = c.database_name;
  username = c.username;
  ssl_mode = view_mode c.ssl_mode;
  ssh_enabled = c.ssh_enabled;
  read_only = c.read_only;
  color = c.color;
  created_at = c.created_at;
}

-- `as u16` and `as u32` of an `i32`: the low bits in two's complement.
unfoldable pub low_bits : ℕ → ℤ → ℕ
low_bits w (pos n) = n % 2 ^ w
low_bits w (negsuc n) = 2 ^ w - 1 - n % 2 ^ w

abbrev pub as_u16 : Option ℤ → Option ℕ
as_u16 none = none
as_u16 (some n) = some (low_bits 16 n)

-- `p as i32` of a port, which fits.
abbrev pub port_i32 : Option ℕ → Option ℤ
port_i32 none = none
port_i32 (some p) = some (pos p)

-- The five secrets of a connection, of type `A`.
pub record Secrets {ℓ} (A : Type ℓ) : Type ℓ where
  pub password : A
  pub ssl_ca_cert : A
  pub ssl_client_cert : A
  pub ssl_client_key : A
  pub ssh_private_key : A

unfoldable pub decrypt_optional : Cipher → Option (List ℕ) → Result ConnectionError (Option Text)
unfolding decrypt_opt
decrypt_optional c value = map_err vault (decrypt_opt c value)

unfoldable pub decrypt_secrets :
    Cipher → ConnectionRow → Result ConnectionError (Secrets (Option Text))
unfolding decrypt_optional
decrypt_secrets c row = do
  password ← decrypt_optional c row.password
  ssl_ca_cert ← decrypt_optional c row.ssl_ca_cert
  ssl_client_cert ← decrypt_optional c row.ssl_client_cert
  ssl_client_key ← decrypt_optional c row.ssl_client_key
  ssh_private_key ← decrypt_optional c row.ssh_private_key
  ok (record {
    password = password;
    ssl_ca_cert = ssl_ca_cert;
    ssl_client_cert = ssl_client_cert;
    ssl_client_key = ssl_client_key;
    ssh_private_key = ssh_private_key;
  })

abbrev pub connection_of : ConnectionRow → DbType → Secrets (Option Text) → Connection
connection_of row kind s = record {
  id = row.id;
  organization_id = row.organization_id;
  workspace_id = row.workspace_id;
  name = row.name;
  db_type = kind;
  host = row.host;
  port = as_u16 row.port;
  database_name = row.database_name;
  username = row.username;
  password = s.password;
  ssl_mode = row.ssl_mode;
  ssl_ca_cert = s.ssl_ca_cert;
  ssl_client_cert = s.ssl_client_cert;
  ssl_client_key = s.ssl_client_key;
  ssh_enabled = row.ssh_enabled;
  ssh_host = row.ssh_host;
  ssh_port = as_u16 row.ssh_port;
  ssh_user = row.ssh_user;
  ssh_private_key = s.ssh_private_key;
  read_only = row.read_only;
  color = row.color;
  pool_min = low_bits 32 row.pool_min;
  pool_max = low_bits 32 row.pool_max;
  created_by = row.created_by;
  created_at = row.created_at;
  updated_by = row.updated_by;
  updated_at = row.updated_at;
  is_soft_deleted = row.is_soft_deleted;
  deleted_by = row.deleted_by;
  deleted_at = row.deleted_at;
}

-- `map_connection`, and ConnectionRow::into_domain, which does the same.
unfoldable pub map_connection : Unicode → Cipher → ConnectionRow → Result ConnectionError Connection
unfolding db_from_str decrypt_secrets
map_connection u c row = do
  kind ← map_err invalid_db_type (db_from_str u row.db_type)
  secrets ← decrypt_secrets c row
  ok (connection_of row kind secrets)

unfoldable pub encrypt_secret :
    Cipher → List ℕ → Option Text → Result ConnectionError (Option (List ℕ))
unfolding encrypt_opt
encrypt_secret c nonce value = map_err vault (encrypt_opt c nonce value)

unfoldable pub encrypt_secrets :
    Cipher → (ℕ → List ℕ) → Connection → Result ConnectionError (Secrets (Option (List ℕ)))
unfolding encrypt_secret
encrypt_secrets e nonces c = do
  password ← encrypt_secret e (nonces 0) c.password
  ssl_ca_cert ← encrypt_secret e (nonces 1) c.ssl_ca_cert
  ssl_client_cert ← encrypt_secret e (nonces 2) c.ssl_client_cert
  ssl_client_key ← encrypt_secret e (nonces 3) c.ssl_client_key
  ssh_private_key ← encrypt_secret e (nonces 4) c.ssh_private_key
  ok (record {
    password = password;
    ssl_ca_cert = ssl_ca_cert;
    ssl_client_cert = ssl_client_cert;
    ssl_client_key = ssl_client_key;
    ssh_private_key = ssh_private_key;
  })

-- The row that `create` inserts, at the time of the database. Columns that are not named take
-- their defaults.
abbrev pub row_of : Connection → Secrets (Option (List ℕ)) → ℕ → ConnectionRow
row_of c s now = record {
  id = c.id;
  organization_id = c.organization_id;
  workspace_id = c.workspace_id;
  name = c.name;
  db_type = db_as_str c.db_type;
  host = c.host;
  port = port_i32 c.port;
  database_name = c.database_name;
  username = c.username;
  password = s.password;
  ssl_mode = c.ssl_mode;
  ssl_ca_cert = s.ssl_ca_cert;
  ssl_client_cert = s.ssl_client_cert;
  ssl_client_key = s.ssl_client_key;
  ssh_enabled = c.ssh_enabled;
  ssh_host = c.ssh_host;
  ssh_port = port_i32 c.ssh_port;
  ssh_user = c.ssh_user;
  ssh_private_key = s.ssh_private_key;
  read_only = c.read_only;
  color = c.color;
  pool_min = wrap_i32 (pos c.pool_min);
  pool_max = wrap_i32 (pos c.pool_max);
  created_by = c.created_by;
  created_at = now;
  updated_by = none;
  updated_at = none;
  is_soft_deleted = false;
  deleted_by = none;
  deleted_at = none;
}
