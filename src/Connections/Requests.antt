-- ===== src/Connections/Requests.antt =====
-- The requests on connections: create, update, delete, test, schema and refresh_schema of
-- crates/app/src/features/connections/handler.rs, for a user who is logged in.
use pairdbase.Common.{ℕ, Bool, true, false, Option, none, some, Result, ok, err, map_err, ◌==◌}
use pairdbase.Common.Actions.{◌>>=◌, ◌>>◌, return, lift, require}
use pairdbase.Text.{Text, codes}
use pairdbase.Connections.Domain.{ConnectionError, DbType, forbidden, invalid_db_type, db_try_from}
use pairdbase.Connections.Rows.{Connection, ConnectionView, view_of}
use pairdbase.Connections.Repository.{Store, Surroundings, Step}
use pairdbase.Connections.UseCases.{
  list_connections, get_full, get_connection, create_connection, update_connection,
  delete_connection, invalidate_schema_cache, get_schema, test_connection,
}

pub record AuthUser : Type 0 where
  pub user_id : ℕ
  pub org_id : ℕ
  pub role : Text

pub record CreateConnectionRequest : Type 0 where
  pub workspace_id : ℕ
  pub name : Text
  pub db_type : Text
  pub host : Option Text
  pub port : Option ℕ
  pub database_name : Option Text
  pub username : Option Text
  pub password : Option Text
  pub ssl_mode : Option Text
  pub ssh_enabled : Option Bool
  pub read_only : Option Bool
  pub color : Option Text
  pub pool_min : Option ℕ
  pub pool_max : Option ℕ

pub record UpdateConnectionRequest : Type 0 where
  pub name : Option Text
  pub read_only : Option Bool
  pub color : Option Text
  pub pool_min : Option ℕ
  pub pool_max : Option ℕ

pub record TestConnectionRequest : Type 0 where
  pub db_type : Text
  pub host : Option Text
  pub port : Option ℕ
  pub database_name : Option Text
  pub username : Option Text
  pub password : Option Text
  pub ssl_mode : Option Text

-- `unwrap_or`, and `or`.
abbrev pub unwrap_or {ℓ} : {A : Type ℓ} → Option A → A → A
unwrap_or none a = a
unwrap_or (some a) b = a

abbrev pub option_or {ℓ} : {A : Type ℓ} → Option A → Option A → Option A
option_or none b = b
option_or (some a) b = some a

-- The kind of a request.
abbrev kind_of : Text → Result ConnectionError DbType
kind_of name = map_err (λ _. invalid_db_type name) (db_try_from name)

-- The connection of a creation, under a fresh id.
unfoldable pub requested_connection :
    AuthUser → CreateConnectionRequest → DbType → ℕ → ℕ → Connection
requested_connection auth body kind id now = record {
  id = id;
  organization_id = auth.org_id;
  workspace_id = body.workspace_id;
  name = body.name;
  db_type = kind;
  host = body.host;
  port = body.port;
  database_name = body.database_name;
  username = body.username;
  password = body.password;
  ssl_mode = unwrap_or body.ssl_mode (codes "");
  ssl_ca_cert = none;
  ssl_client_cert = none;
  ssl_client_key = none;
  ssh_enabled = unwrap_or body.ssh_enabled false;
  ssh_host = none;
  ssh_port = none;
  ssh_user = none;
  ssh_private_key = none;
  read_only = unwrap_or body.read_only false;
  color = body.color;
  pool_min = unwrap_or body.pool_min 1;
  pool_max = unwrap_or body.pool_max 10;
  created_by = auth.user_id;
  created_at = now;
  updated_by = none;
  updated_at = none;
  is_soft_deleted = false;
  deleted_by = none;
  deleted_at = none;
}

-- The connection that is tested, which is stored nowhere.
unfoldable pub tested_connection : AuthUser → TestConnectionRequest → DbType → ℕ → ℕ → Connection
tested_connection auth body kind id now = record {
  id = id;
  organization_id = auth.org_id;
  workspace_id = 0;
  name = codes "test";
  db_type = kind;
  host = body.host;
  port = body.port;
  database_name = body.database_name;
  username = body.username;
  password = body.password;
  ssl_mode = unwrap_or body.ssl_mode (codes "");
  ssl_ca_cert = none;
  ssl_client_cert = none;
  ssl_client_key = none;
  ssh_enabled = false;
  ssh_host = none;
  ssh_port = none;
  ssh_user = none;
  ssh_private_key = none;
  read_only = true;
  color = none;
  pool_min = 1;
  pool_max = 2;
  created_by = auth.user_id;
  created_at = now;
  updated_by = none;
  updated_at = none;
  is_soft_deleted = false;
  deleted_by = none;
  deleted_at = none;
}

-- What an update makes of the connection that is there.
unfoldable pub updated_connection : AuthUser → UpdateConnectionRequest → Connection → Connection
updated_connection auth body existing = record existing {
  name = unwrap_or body.name existing.name;
  read_only = unwrap_or body.read_only existing.read_only;
  color = option_or body.color existing.color;
  pool_min = unwrap_or body.pool_min existing.pool_min;
  pool_max = unwrap_or body.pool_max existing.pool_max;
  updated_by = some auth.user_id;
}

module _ {D M : Type 0} where
  unfoldable pub create_request :
      Surroundings D M → AuthUser → CreateConnectionRequest → ℕ → ℕ → Step D ConnectionView
  unfolding requested_connection
  create_request x auth body id now = do
    kind ← lift (kind_of body.db_type)
    create_connection x (requested_connection auth body kind id now)

  unfoldable pub update_request :
      Surroundings D M → AuthUser → ℕ → UpdateConnectionRequest → Step D ConnectionView
  unfolding updated_connection
  update_request x auth id body = do
    existing ← get_full x id auth.org_id
    require (existing.created_by == auth.user_id) forbidden
    conn ← update_connection x 1 (updated_connection auth body existing)
    return (view_of conn)

  unfoldable pub delete_request : Surroundings D M → AuthUser → ℕ → Step D (Unit {0})
  delete_request x auth id = delete_connection x id auth.user_id

  unfoldable pub test_request :
      Surroundings D M → AuthUser → TestConnectionRequest → ℕ → ℕ → Result ConnectionError Bool
  unfolding tested_connection
  test_request x auth body id now = elim (kind_of body.db_type) [
    | err e ↦ err e
    | ok kind ↦ ok (test_connection x (tested_connection auth body kind id now)).success
  ]

  unfoldable pub schema_request : Surroundings D M → ℕ → Step D M
  schema_request x id = get_connection x 0 id >> get_schema x 1 id

  unfoldable pub refresh_request : Surroundings D M → ℕ → Step D M
  refresh_request x id =
      get_connection x 0 id >> invalidate_schema_cache x 1 id >> get_schema x 2 id

-- A request that reaches the use cases, with the fresh id and the time of a creation.
pub data Request : Type 0 where
  creates : AuthUser → CreateConnectionRequest → ℕ → ℕ → Request
  updates : AuthUser → ℕ → UpdateConnectionRequest → Request
  deletes : AuthUser → ℕ → Request
  lists gets reads_schema refreshes : ℕ → Request

module _ {D M : Type 0} where
  -- The store that a request leaves, whether it is answered with an error or not.
  unfoldable pub after : Surroundings D M → Request → Store D → Store D
  unfolding create_request update_request delete_request schema_request refresh_request
  after x (creates auth body id now) t = (create_request x auth body id now t).0
  after x (updates auth id body) t = (update_request x auth id body t).0
  after x (deletes auth id) t = (delete_request x auth id t).0
  after x (lists workspace_id) t = (list_connections x workspace_id t).0
  after x (gets id) t = (get_connection x 0 id t).0
  after x (reads_schema id) t = (schema_request x id t).0
  after x (refreshes id) t = (refresh_request x id t).0
