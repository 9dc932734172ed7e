-- ===== src/Query/Pools.antt =====
-- How the pool of a connection is built: build_execution_pool with its seven builders and
-- SqlServerManager::build in crates/app/src/features/query/pool.rs. What a client library makes of
-- its address is a parameter.
use pairdbase.Common.{ℕ, Option, none, some, ◌++◌, Result, ok, err, if◌then◌else◌}
use pairdbase.Text.{Text, codes, decimal, text_eq, Unicode}
use pairdbase.Connections.Domain.{
  DbType, postgresql, mysql, mongodb, redis, sqlite, sqlserver, oracle, SslMode, disable, allow,
  prefer, require, verify_ca, verify_full, ssl_default, ssl_try_from,
}
use pairdbase.Connections.Rows.{Connection}
use pairdbase.Query.Executor.{
  ExecutionPool, postgres_pool, mysql_pool, sqlite_pool, oracle_pool, sqlserver_pool, mongodb_pool,
  redis_pool,
}

pub data EncryptionLevel : Type 0 where
  encryption_off encryption_required encryption_not_supported : EncryptionLevel

-- The user and the password, or the account of the process.
pub data AuthMethod : Type 0 where
  sql_server : Text → Text → AuthMethod
  integrated : AuthMethod

-- `tiberius::Config`, with `trust_cert` set.
pub record Config : Type 0 where
  pub host : Text
  pub port : ℕ
  pub database : Option Text
  pub authentication : AuthMethod
  pub encryption : EncryptionLevel

abbrev text_or : Option Text → Text → Text
text_or none t = t
text_or (some s) t = s

abbrev port_or : Option ℕ → ℕ → ℕ
port_or none n = n
port_or (some m) n = m

abbrev host_of : Connection → Text
host_of c = text_or c.host (codes "localhost")

-- `HOST:PORT`.
abbrev endpoint : Connection → ℕ → Text
endpoint c port = host_of c ++ codes ":" ++ decimal (port_or c.port port)

-- `USER:PASSWORD@HOST:PORT`.
abbrev user_at : Connection → Text → Text → ℕ → Text
user_at c user password port = user ++ codes ":" ++ password ++ codes "@" ++ endpoint c port

unfoldable pub postgres_url : Connection → Text
postgres_url c =
    codes "postgresql://"
    ++ user_at c (text_or c.username (codes "postgres")) (text_or c.password (codes "")) 5432
    ++ codes "/"
    ++ text_or c.database_name (codes "postgres")
    ++ codes "?sslmode="
    ++ c.ssl_mode

unfoldable pub mysql_url : Connection → Text
mysql_url c =
    codes "mysql://"
    ++ user_at c (text_or c.username (codes "root")) (text_or c.password (codes "")) 3306
    ++ codes "/"
    ++ text_or c.database_name (codes "")

unfoldable pub sqlite_url : Connection → Text
unfolding text_eq
sqlite_url c =
    let path = text_or c.database_name (codes ":memory:") in
    if text_eq path (codes ":memory:") then codes "sqlite::memory:" else codes "sqlite:" ++ path

unfoldable pub oracle_string : Connection → Text
oracle_string c =
    codes "//" ++ endpoint c 1521 ++ codes "/" ++ text_or c.database_name (codes "ORCL")

abbrev mongodb_host : Connection → Option Text → Option Text → Text
mongodb_host c (some user) (some password) = user_at c user password 27017
mongodb_host c (some user) none = endpoint c 27017
mongodb_host c none password = endpoint c 27017

unfoldable pub mongodb_url : Connection → Text
mongodb_url c =
    codes "mongodb://"
    ++ mongodb_host c c.username c.password
    ++ codes "/"
    ++ text_or c.database_name (codes "test")

abbrev redis_host : Connection → Option Text → Text
redis_host c none = endpoint c 6379
redis_host c (some password) = codes ":" ++ password ++ codes "@" ++ endpoint c 6379

unfoldable pub redis_url : Connection → Text
redis_url c = codes "redis://" ++ redis_host c c.password

abbrev encryption_of : SslMode → EncryptionLevel
encryption_of require = encryption_required
encryption_of verify_full = encryption_required
encryption_of verify_ca = encryption_required
encryption_of disable = encryption_not_supported
encryption_of allow = encryption_off
encryption_of prefer = encryption_off

abbrev auth_method : Option Text → Option Text → AuthMethod
auth_method (some user) (some password) = sql_server user password
auth_method (some user) none = integrated
auth_method none password = integrated

-- `unwrap_or_default`.
abbrev mode_of : Result Text SslMode → SslMode
mode_of (ok mode) = mode
mode_of (err e) = ssl_default

-- `SqlServerManager::build`, which does not fail.
unfoldable pub sqlserver_config : Unicode → Connection → Config
unfolding ssl_try_from ssl_default
sqlserver_config u c = record {
  host = host_of c;
  port = port_or c.port 1433;
  database = c.database_name;
  authentication = auth_method c.username c.password;
  encryption = encryption_of (mode_of (ssl_try_from u c.ssl_mode));
}

-- What the client libraries do with their addresses, and with the bounds of a pool.
pub record Clients (H : Type 0) : Type 0 where
  pub open_postgres : Text → ℕ → ℕ → Result Text H
  pub open_mysql : Text → ℕ → ℕ → Result Text H
  pub open_sqlite : Text → ℕ → Result Text H
  pub open_oracle : Text → Text → Text → ℕ → Result Text H
  pub open_sqlserver : Config → ℕ → ℕ → Result Text H
  pub open_mongodb : Text → Result Text H
  pub open_redis : Text → Result Text H

abbrev pooled : {H : Type 0} → (H → ExecutionPool H) → Result Text H → Result Text (ExecutionPool H)
pooled pool (ok h) = ok (pool h)
pooled pool (err e) = err e

-- The builder of the kind.
unfoldable pub build_kind :
    {H : Type 0} → Unicode → Clients H → Connection → DbType → Result Text (ExecutionPool H)
unfolding postgres_url mysql_url sqlite_url oracle_string mongodb_url redis_url sqlserver_config
build_kind u k c postgresql =
    pooled postgres_pool (k.open_postgres (postgres_url c) c.pool_min c.pool_max)
build_kind u k c mysql = pooled mysql_pool (k.open_mysql (mysql_url c) c.pool_min c.pool_max)
build_kind u k c sqlite = pooled sqlite_pool (k.open_sqlite (sqlite_url c) 1)
build_kind u k c oracle = pooled oracle_pool (
    k.open_oracle (text_or c.username (codes "")) (text_or c.password (codes "")) (oracle_string c)
      c.pool_max)
build_kind u k c sqlserver =
    pooled sqlserver_pool (k.open_sqlserver (sqlserver_config u c) c.pool_min c.pool_max)
build_kind u k c mongodb = pooled mongodb_pool (k.open_mongodb (mongodb_url c))
build_kind u k c redis = pooled redis_pool (k.open_redis (redis_url c))

unfoldable pub build_execution_pool :
    {H : Type 0} → Unicode → Clients H → Connection → Result Text (ExecutionPool H)
unfolding build_kind
build_execution_pool u k c = build_kind u k c c.db_type
