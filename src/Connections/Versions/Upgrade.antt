-- ===== src/Connections/Versions/Upgrade.antt =====
-- Theorems on the order of versions and on the tables of capabilities in
-- crates/app/src/features/connections/drivers/versions.rs.
use pairdbase.Common.{ℕ, ◌<◌, ◌≤◌, ◌≡◌, refl, ◌⊎◌, ◌↔◌, Bool, true, List, [], ◌∷◌, arith}
use pairdbase.Connections.Versions.{ServerVersion, at_least}
use pairdbase.Connections.Versions.Capabilities.{
  VersionCapabilities, no_capabilities, for_postgres, for_mysql, for_mariadb, for_sqlserver,
  for_oracle, for_redis, for_sqlite,
}
use pairdbase.Connections.Versions.Own.{
  MongoCapabilities, mongo_from_version, oracle_from_version, sqlserver_from_version,
}

-- The version is at least the other, in major and minor number.
abbrev pub IsUpgrade : ServerVersion → ServerVersion → Type 0
IsUpgrade v w = (v.major < w.major) ⊎ ((v.major ≡ w.major) × (v.minor ≤ w.minor))

-- The capabilities in the order of their declaration.
abbrev pub flags : VersionCapabilities → List Bool
flags c =
    c.string_agg ∷ c.listagg ∷ c.listagg_overflow ∷ c.group_concat ∷ c.fetch_first ∷ c.offset_fetch
    ∷ c.sequences ∷ c.identity_columns ∷ c.generated_columns ∷ c.drop_if_exists ∷ c.json_support
    ∷ c.json_table ∷ c.window_functions ∷ c.cume_dist ∷ c.materialized_views ∷ c.lateral_join
    ∷ c.cte_update_delete ∷ c.returning_clause ∷ c.procedures ∷ c.packages ∷ c.temporal_tables
    ∷ c.redis_acl ∷ c.redis_streams ∷ c.redis_lmpop ∷ c.sqlite_json ∷ c.sqlite_window_fns
    ∷ c.sqlite_generated ∷ []

abbrev pub mongo_flags : MongoCapabilities → List Bool
mongo_flags c =
    c.aggregation ∷ c.views ∷ c.validators ∷ c.transactions ∷ c.change_streams ∷ c.time_series
    ∷ c.clustered_collections ∷ c.column_store_indexes ∷ c.wildcard_indexes ∷ c.hidden_indexes
    ∷ c.partial_indexes ∷ c.ttl_indexes ∷ c.search_indexes ∷ c.window_functions ∷ []

-- Each flag of the first list that is set is set in the second.
abbrev pub Within : List Bool → List Bool → Type 0
Within [] ys = Unit
Within (x ∷ xs) [] = ⊥
Within (x ∷ xs) (y ∷ ys) = (x ≡ true → y ≡ true) × Within xs ys

-- `at_least` compares major and minor number in lexicographic order.
pub at_least_iff :
    (v : ServerVersion) (major minor : ℕ)
    → (at_least v major minor ≡ true)
      ↔ ((major < v.major) ⊎ ((major ≡ v.major) × (minor ≤ v.minor)))
unfolding at_least
at_least_iff v major minor = (λ h. ground arith, λ h. ground arith)

at_least_mono :
    (v w : ServerVersion) (major minor : ℕ)
    → IsUpgrade v w
    → at_least v major minor ≡ true
    → at_least w major minor ≡ true
unfolding at_least
at_least_mono v w major minor u h = ground arith

-- The kinds of server that have a table of common capabilities.
pub data Server : Type 0 where
  postgres_server mysql_server mariadb_server sqlserver_server oracle_server redis_server
        sqlite_server :
      Server

abbrev pub capabilities : Server → ServerVersion → VersionCapabilities
capabilities postgres_server v = for_postgres v
capabilities mysql_server v = for_mysql v
capabilities mariadb_server v = for_mariadb v
capabilities sqlserver_server v = for_sqlserver v
capabilities oracle_server v = for_oracle v
capabilities redis_server v = for_redis v
capabilities sqlite_server v = for_sqlite v

-- An upgrade takes no capability away, whatever the kind of server.
pub capabilities-Within :
    (s : Server) (v w : ServerVersion)
    → IsUpgrade v w
    → Within (flags (capabilities s v)) (flags (capabilities s w))
unfolding for_postgres for_mysql for_mariadb for_sqlserver for_oracle for_redis for_sqlite
    no_capabilities
capabilities-Within postgres_server v w u = ground (arith, at_least_mono v w)
capabilities-Within mysql_server v w u = ground (arith, at_least_mono v w)
capabilities-Within mariadb_server v w u = ground (arith, at_least_mono v w)
capabilities-Within sqlserver_server v w u = ground (arith, at_least_mono v w)
capabilities-Within oracle_server v w u = ground (arith, at_least_mono v w)
capabilities-Within redis_server v w u = ground (arith, at_least_mono v w)
capabilities-Within sqlite_server v w u = ground (arith, at_least_mono v w)

-- An upgrade of MongoDB takes no capability away.
pub mongo_from_version-Within :
    (v w : ServerVersion)
    → IsUpgrade v w
    → Within (mongo_flags (mongo_from_version v)) (mongo_flags (mongo_from_version w))
unfolding mongo_from_version
mongo_from_version-Within v w u = ground (arith, at_least_mono v w)

-- What Oracle's own table and the common one both say of a version is the same.
pub oracle_tables_agree :
    (v : ServerVersion)
    → let own = oracle_from_version v in
      let common = for_oracle v in
      (own.has_listagg ≡ common.listagg)
      × (own.has_listagg_overflow ≡ common.listagg_overflow)
      × (own.has_fetch_first ≡ common.fetch_first)
      × (own.has_json_table ≡ common.json_table)
      × (own.has_identity_columns ≡ common.identity_columns)
      × (own.has_lateral_join ≡ common.lateral_join)
unfolding oracle_from_version for_oracle no_capabilities
oracle_tables_agree v = (refl, refl, refl, refl, refl, refl)

-- What SQL Server's own table and the common one both say of a version is the same.
pub sqlserver_tables_agree :
    (v : ServerVersion)
    → let own = sqlserver_from_version v in
      let common = for_sqlserver v in
      (own.has_string_agg ≡ common.string_agg)
      × (own.has_drop_if_exists ≡ common.drop_if_exists)
      × (own.has_sequences ≡ common.sequences)
      × (own.has_json_support ≡ common.json_support)
      × (own.has_temporal_tables ≡ common.temporal_tables)
      × (own.has_offset_fetch ≡ common.offset_fetch)
unfolding sqlserver_from_version for_sqlserver no_capabilities
sqlserver_tables_agree v = (refl, refl, refl, refl, refl, refl)
