-- ===== src/Connections/Versions/Own.antt =====
-- The capabilities that the drivers for MongoDB, Oracle and SQL Server keep beside the common ones,
-- in crates/app/src/features/connections/drivers/versions.rs.
use pairdbase.Common.{Bool, true, false, leb, if◌then◌else◌, ◌==◌}
use pairdbase.Text.{Text, codes}
use pairdbase.Connections.Versions.{ServerVersion, at_least}

pub record MongoCapabilities : Type 0 where
  pub aggregation : Bool
  pub views : Bool
  pub validators : Bool
  pub transactions : Bool
  pub change_streams : Bool
  pub time_series : Bool
  pub clustered_collections : Bool
  pub column_store_indexes : Bool
  pub wildcard_indexes : Bool
  pub hidden_indexes : Bool
  pub partial_indexes : Bool
  pub ttl_indexes : Bool
  pub search_indexes : Bool
  pub window_functions : Bool

unfoldable pub mongo_from_version : ServerVersion → MongoCapabilities
unfolding at_least
mongo_from_version v = record {
  aggregation = true;
  views = at_least v 3 4;
  validators = at_least v 3 2;
  transactions = at_least v 4 0;
  change_streams = at_least v 3 6;
  time_series = at_least v 5 0;
  clustered_collections = at_least v 5 3;
  column_store_indexes = at_least v 7 0;
  wildcard_indexes = at_least v 4 2;
  hidden_indexes = at_least v 4 4;
  partial_indexes = at_least v 3 2;
  ttl_indexes = true;
  search_indexes = false;
  window_functions = at_least v 5 0;
}

pub record OracleCapabilities : Type 0 where
  pub has_listagg_overflow : Bool
  pub has_fetch_first : Bool
  pub has_approx_functions : Bool
  pub has_json_table : Bool
  pub has_identity_columns : Bool
  pub has_lateral_join : Bool
  pub has_listagg : Bool

unfoldable pub oracle_from_version : ServerVersion → OracleCapabilities
unfolding at_least
oracle_from_version v = record {
  has_listagg = at_least v 11 2;
  has_listagg_overflow = at_least v 12 2;
  has_fetch_first = leb 12 v.major;
  has_approx_functions = leb 19 v.major;
  has_json_table = at_least v 12 2;
  has_identity_columns = leb 12 v.major;
  has_lateral_join = leb 12 v.major;
}

pub record SqlServerCapabilities : Type 0 where
  pub has_string_agg : Bool
  pub has_drop_if_exists : Bool
  pub has_sequences : Bool
  pub has_approx_count : Bool
  pub has_json_support : Bool
  pub has_temporal_tables : Bool
  pub has_row_level_security : Bool
  pub has_trim : Bool
  pub has_iif : Bool
  pub has_try_parse : Bool
  pub has_offset_fetch : Bool

unfoldable pub sqlserver_from_version : ServerVersion → SqlServerCapabilities
sqlserver_from_version v = record {
  has_iif = leb 11 v.major;
  has_try_parse = leb 11 v.major;
  has_offset_fetch = leb 11 v.major;
  has_sequences = leb 11 v.major;
  has_drop_if_exists = leb 13 v.major;
  has_json_support = leb 13 v.major;
  has_temporal_tables = leb 13 v.major;
  has_row_level_security = leb 13 v.major;
  has_string_agg = leb 14 v.major;
  has_trim = leb 14 v.major;
  has_approx_count = leb 15 v.major;
}

unfoldable pub product_name : ServerVersion → Text
product_name v =
    if v.major == 10
    then codes "SQL Server 2008/2008 R2"
    else if v.major == 11
    then codes "SQL Server 2012"
    else if v.major == 12
    then codes "SQL Server 2014"
    else if v.major == 13
    then codes "SQL Server 2016"
    else if v.major == 14
    then codes "SQL Server 2017"
    else if v.major == 15
    then codes "SQL Server 2019"
    else if v.major == 16
    then codes "SQL Server 2022"
    else codes "SQL Server (unknown version)"
