-- ===== src/Connections/Domain.antt =====
-- Kinds of database and of transport security: `DbType` and `SslMode` of
-- crates/app/src/features/connections/domain.rs.
use pairdbase.Common.{ℕ, Option, none, some, List, [], ◌∷◌, ◌++◌, Result, ok_or}
use pairdbase.Text.{Text, codes, Unicode, match_text, trim}

pub data DbType : Type 0 where
  postgresql mysql mongodb redis sqlite sqlserver oracle : DbType

pub data SslMode : Type 0 where
  disable allow prefer require verify_ca verify_full : SslMode

pub DbType-discrete : Discrete DbType
DbType-discrete = hlevel

unfoldable pub db_as_str : DbType → Text
db_as_str postgresql = codes "postgresql"
db_as_str mysql = codes "mysql"
db_as_str mongodb = codes "mongodb"
db_as_str redis = codes "redis"
db_as_str sqlite = codes "sqlite"
db_as_str sqlserver = codes "sqlserver"
db_as_str oracle = codes "oracle"

unfoldable pub default_port : DbType → Option ℕ
default_port postgresql = some 5432
default_port mysql = some 3306
default_port mongodb = some 27017
default_port redis = some 6379
default_port oracle = some 1521
default_port sqlserver = some 1433
default_port sqlite = none

-- The arms of `FromStr`, which is matched against the lower case.
abbrev pub from_str_arms : List (Text × DbType)
from_str_arms =
    (codes "postgresql", postgresql)
    ∷ (codes "postgres", postgresql)
    ∷ (codes "mysql", mysql)
    ∷ (codes "mssql", sqlserver)
    ∷ (codes "sqlserver", sqlserver)
    ∷ (codes "sql_server", sqlserver)
    ∷ (codes "oracle", oracle)
    ∷ (codes "mongodb", mongodb)
    ∷ (codes "mongo", mongodb)
    ∷ []

unfoldable pub db_from_str : Unicode → Text → Result Text DbType
unfolding match_text
db_from_str u value =
    let lower = u.to_lowercase value in
    ok_or (match_text lower from_str_arms) (codes "Unsupported database type: " ++ lower)

pub data ConnectionError : Type 0 where
  not_found name_taken forbidden : ConnectionError
  unsupported_db test_failed vault driver : Text → ConnectionError
  internal database invalid_db_type : Text → ConnectionError

abbrev pub try_from_arms : List (Text × DbType)
try_from_arms =
    (codes "postgresql", postgresql)
    ∷ (codes "mysql", mysql)
    ∷ (codes "mongodb", mongodb)
    ∷ (codes "redis", redis)
    ∷ (codes "sqlite", sqlite)
    ∷ (codes "sqlserver", sqlserver)
    ∷ (codes "oracle", oracle)
    ∷ []

unfoldable pub db_try_from : Text → Result ConnectionError DbType
unfolding match_text
db_try_from s = ok_or (match_text s try_from_arms) (unsupported_db s)

unfoldable pub ssl_default : SslMode
ssl_default = prefer

unfoldable pub ssl_as_str : SslMode → Text
ssl_as_str disable = codes "disable"
ssl_as_str allow = codes "allow"
ssl_as_str prefer = codes "prefer"
ssl_as_str require = codes "require"
ssl_as_str verify_ca = codes "verify-ca"
ssl_as_str verify_full = codes "verify-full"

abbrev pub ssl_arms : List (Text × SslMode)
ssl_arms =
    (codes "disable", disable)
    ∷ (codes "allow", allow)
    ∷ (codes "prefer", prefer)
    ∷ (codes "require", require)
    ∷ (codes "verify-ca", verify_ca)
    ∷ (codes "verify-full", verify_full)
    ∷ []

unfoldable pub ssl_try_from : Unicode → Text → Result Text SslMode
unfolding match_text
ssl_try_from u value =
    let lower = u.to_lowercase (trim value) in
    ok_or (match_text lower ssl_arms) (codes "invalid SSL mode: " ++ lower)
