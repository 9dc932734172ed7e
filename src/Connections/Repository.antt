-- ===== src/Connections/Repository.antt =====
-- The table of connections: PgConnectionRepo of crates/app/src/features/connections/repository.rs,
-- with the constraints of migrations/20260907120223_create_db_connections.sql, and the store that
-- the use cases share with it: the open drivers and the schemas that Redis keeps (pool.rs).
use mathlib.Core.List.{reverse}
use pairdbase.Common.{
  ℕ, Bool, true, false, not, ◌&&◌, Option, none, some, List, [], ◌∷◌, ◌++◌, Result, ◌==◌, leb, find,
  any_of, keep, is_some, update_rows, collect, transpose, sort_by, if◌then◌else◌,
}
use pairdbase.Common.Int.{ℤ, pos, negsuc, ltb_ℤ}
use pairdbase.Common.Maps.{Map}
use pairdbase.Common.Actions.{
  Action, ◌>>=◌, ◌>>◌, return, lift, get_state, put_state, require, may_fail,
}
use pairdbase.Text.{Text, codes, Unicode}
use pairdbase.Connections.Domain.{ConnectionError, database, DbType}
use pairdbase.Connections.Vault.{Cipher}
use pairdbase.Connections.Rows.{Connection, ConnectionRow, map_connection, row_of, encrypt_secrets}

-- A cached schema is JSON, with the time at which Redis drops it.
pub record Store (D : Type 0) : Type 0 where
  pub rows : List ConnectionRow
  pub drivers : Map D
  pub cache : Map (Text × ℕ)

-- What a request gets from elsewhere: for each call, in the order of the code, the error of the
-- database, the time, and whether Redis fails; the nonces of the secrets in their order; the
-- cipher and the case mappings; what a client library does to connect, to answer a ping and to read
-- a schema; and the conversions of a schema to JSON and back.
pub record Surroundings (D M : Type 0) : Type 0 where
  pub fault : ℕ → Option Text
  pub clock : ℕ → ℕ
  pub redis_fails : ℕ → Bool
  pub nonces : ℕ → List ℕ
  pub cipher : Cipher
  pub unicode : Unicode
  pub connect : DbType → Connection → Result Text D
  pub ping : D → Result Text (Text × ℕ)
  pub fetch_schema : D → Result Text M
  pub to_json : M → Option Text
  pub from_json : Text → Option M

abbrev pub Step {ℓ} : Type 0 → Type ℓ → Type ℓ
Step D A = Action (Store D) ConnectionError A

abbrev pub database_error : Option Text → Option ConnectionError
database_error none = none
database_error (some e) = some (database e)

unfoldable pub is_stored : ℕ → ConnectionRow → Bool
is_stored id r = r.id == id && not r.is_soft_deleted && not (is_some r.deleted_at)

unfoldable pub is_listed : ℕ → ConnectionRow → Bool
is_listed workspace_id r =
    r.workspace_id == workspace_id && not r.is_soft_deleted && not (is_some r.deleted_at)

-- The checks of the table, in their order.
abbrev port_check : Option ℤ → Bool
port_check none = true
port_check (some (pos n)) = leb 1 n && leb n 65535
port_check (some (negsuc n)) = false

abbrev ssh_check : ConnectionRow → Bool
ssh_check r =
    if r.ssh_enabled
    then is_some r.ssh_host && is_some r.ssh_port && is_some r.ssh_user && is_some r.ssh_private_key
    else true

unfoldable pub passes_checks : ConnectionRow → Bool
passes_checks r =
    port_check r.port
    && port_check r.ssh_port
    && not (ltb_ℤ r.pool_min (pos 0))
    && not (ltb_ℤ r.pool_max r.pool_min)
    && ssh_check r

unfoldable pub renamed : Connection → ℕ → ConnectionRow → ConnectionRow
renamed c now r = record r {
  name = c.name;
  read_only = c.read_only;
  color = c.color;
  updated_by = c.updated_by;
  updated_at = some now;
}

unfoldable pub removed : ℕ → ConnectionRow → ConnectionRow
removed now r = record r { deleted_at = some now }

module _ {D M : Type 0} where
  abbrev pub ask_database : Surroundings D M → ℕ → Step D (Unit {0})
  ask_database x i = may_fail (database_error (x.fault i))

  unfoldable pub find_connection : Surroundings D M → ℕ → ℕ → Step D (Option Connection)
  unfolding is_stored
  find_connection x i id = do
    ask_database x i
    t ← get_state
    lift (transpose (map_connection x.unicode x.cipher) (find (is_stored id) t.rows))

  unfoldable pub list_for_workspace : Surroundings D M → ℕ → ℕ → Step D (List Connection)
  unfolding is_listed
  list_for_workspace x i workspace_id = do
    ask_database x i
    t ← get_state
    let rows = reverse (sort_by (λ r. r.created_at) (keep (is_listed workspace_id) t.rows))
    lift (collect (map_connection x.unicode x.cipher) rows)

  -- The insertion, which the constraints of the table may refuse.
  unfoldable pub insert_row : Surroundings D M → ℕ → ConnectionRow → Step D (Unit {0})
  unfolding passes_checks
  insert_row x i row = do
    ask_database x i
    t ← get_state
    require (not (any_of (λ r. r.id == row.id) t.rows)) (database (codes "tbl_db_connections_pkey"))
    require (passes_checks row) (database (codes "tbl_db_connections_chk"))
    put_state (record t { rows = t.rows ++ row ∷ [] })

  unfoldable pub insert_connection : Surroundings D M → ℕ → Connection → Step D Connection
  unfolding encrypt_secrets insert_row
  insert_connection x i c = do
    secrets ← lift (encrypt_secrets x.cipher x.nonces c)
    insert_row x i (row_of c secrets (x.clock i))
    return c

  unfoldable pub change_row :
      Surroundings D M → ℕ → ℕ → (ConnectionRow → ConnectionRow) → Step D (Unit {0})
  change_row x i id f = do
    ask_database x i
    t ← get_state
    put_state
        (record t { rows = update_rows (λ r. r.id == id && not (is_some r.deleted_at)) f t.rows })

  unfoldable pub save_connection : Surroundings D M → ℕ → Connection → Step D Connection
  unfolding change_row renamed
  save_connection x i c = do change_row x i c.id (renamed c (x.clock i)); return c

  unfoldable pub remove_connection : Surroundings D M → ℕ → ℕ → Step D (Unit {0})
  unfolding change_row removed
  remove_connection x i id = change_row x i id (removed (x.clock i))
