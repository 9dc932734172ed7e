-- ===== src/Connections/Versions/Capabilities.antt =====
-- What a server of each kind can do, by its version: VersionCapabilities of
-- crates/app/src/features/connections/drivers/versions.rs.
use pairdbase.Common.{Bool, true, false, leb}
use pairdbase.Connections.Versions.{ServerVersion, at_least}

pub record VersionCapabilities : Type 0 where
  pub string_agg : Bool
  pub listagg : Bool
  pub listagg_overflow : Bool
  pub group_concat : Bool
  pub fetch_first : Bool
  pub offset_fetch : Bool
  pub sequences : Bool
  pub identity_columns : Bool
  pub generated_columns : Bool
  pub drop_if_exists : Bool
  pub json_support : Bool
  pub json_table : Bool
  pub window_functions : Bool
  pub cume_dist : Bool
  pub materialized_views : Bool
  pub lateral_join : Bool
  pub cte_update_delete : Bool
  pub returning_clause : Bool
  pub procedures : Bool
  pub packages : Bool
  pub temporal_tables : Bool
  pub redis_acl : Bool
  pub redis_streams : Bool
  pub redis_lmpop : Bool
  pub sqlite_json : Bool
  pub sqlite_window_fns : Bool
  pub sqlite_generated : Bool

-- `Default`.
unfoldable pub no_capabilities : VersionCapabilities
no_capabilities = record {
  string_agg = false;
  listagg = false;
  listagg_overflow = false;
  group_concat = false;
  fetch_first = false;
  offset_fetch = false;
  sequences = false;
  identity_columns = false;
  generated_columns = false;
  drop_if_exists = false;
  json_support = false;
  json_table = false;
  window_functions = false;
  cume_dist = false;
  materialized_views = false;
  lateral_join = false;
  cte_update_delete = false;
  returning_clause = false;
  procedures = false;
  packages = false;
  temporal_tables = false;
  redis_acl = false;
  redis_streams = false;
  redis_lmpop = false;
  sqlite_json = false;
  sqlite_window_fns = false;
  sqlite_generated = false;
}

unfoldable pub for_postgres : ServerVersion → VersionCapabilities
unfolding no_capabilities at_least
for_postgres v = record no_capabilities {
  string_agg = true;
  fetch_first = true;
  offset_fetch = true;
  sequences = true;
  identity_columns = true;
  generated_columns = at_least v 12 0;
  drop_if_exists = true;
  json_support = true;
  json_table = true;
  window_functions = true;
  cume_dist = true;
  materialized_views = true;
  lateral_join = true;
  cte_update_delete = true;
  returning_clause = true;
  procedures = at_least v 14 0;
}

unfoldable pub for_mysql : ServerVersion → VersionCapabilities
unfolding no_capabilities at_least
for_mysql v =
    let is_8 = leb 8 v.major in
    let is_84 = at_least v 8 4 in
    record no_capabilities {
      string_agg = false;
      group_concat = true;
      fetch_first = false;
      offset_fetch = true;
      sequences = false;
      identity_columns = true;
      generated_columns = at_least v 5 7;
      drop_if_exists = true;
      json_support = at_least v 5 7;
      json_table = is_8;
      window_functions = is_8;
      cume_dist = is_8;
      lateral_join = is_8;
      cte_update_delete = is_8;
      returning_clause = false;
      procedures = true;
      temporal_tables = false;
    }

unfoldable pub for_mariadb : ServerVersion → VersionCapabilities
unfolding no_capabilities at_least
for_mariadb v =
    let is_10_3 = at_least v 10 3 in
    let is_10_6 = at_least v 10 6 in
    let is_11 = leb 11 v.major in
    record no_capabilities {
      string_agg = is_10_3;
      group_concat = true;
      fetch_first = is_10_6;
      offset_fetch = true;
      sequences = is_10_3;
      identity_columns = true;
      generated_columns = at_least v 5 2;
      drop_if_exists = true;
      json_support = at_least v 10 2;
      json_table = at_least v 10 6;
      window_functions = is_10_3;
      cume_dist = is_10_3;
      temporal_tables = is_10_3;
      lateral_join = at_least v 10 9;
      procedures = true;
    }

unfoldable pub for_sqlserver : ServerVersion → VersionCapabilities
unfolding no_capabilities
for_sqlserver v = record no_capabilities {
  string_agg = leb 14 v.major;
  offset_fetch = leb 11 v.major;
  sequences = leb 11 v.major;
  identity_columns = true;
  generated_columns = leb 12 v.major;
  drop_if_exists = leb 13 v.major;
  json_support = leb 13 v.major;
  json_table = leb 13 v.major;
  window_functions = true;
  cume_dist = leb 11 v.major;
  temporal_tables = leb 13 v.major;
  returning_clause = false;
  procedures = true;
  lateral_join = false;
  fetch_first = false;
}

unfoldable pub for_oracle : ServerVersion → VersionCapabilities
unfolding no_capabilities at_least
for_oracle v = record no_capabilities {
  listagg = at_least v 11 2;
  listagg_overflow = at_least v 12 2;
  fetch_first = leb 12 v.major;
  sequences = true;
  identity_columns = leb 12 v.major;
  generated_columns = true;
  drop_if_exists = leb 23 v.major;
  json_support = at_least v 12 2;
  json_table = at_least v 12 2;
  window_functions = true;
  cume_dist = true;
  materialized_views = true;
  lateral_join = leb 12 v.major;
  cte_update_delete = false;
  returning_clause = true;
  procedures = true;
  packages = true;
}

unfoldable pub for_redis : ServerVersion → VersionCapabilities
unfolding no_capabilities at_least
for_redis v = record no_capabilities {
  redis_acl = at_least v 6 0;
  redis_streams = at_least v 5 0;
  redis_lmpop = at_least v 7 0;
}

unfoldable pub for_sqlite : ServerVersion → VersionCapabilities
unfolding no_capabilities at_least
for_sqlite v = record no_capabilities {
  sqlite_json = at_least v 3 38;
  sqlite_window_fns = at_least v 3 25;
  sqlite_generated = at_least v 3 31;
}
