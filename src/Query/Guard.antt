-- ===== src/Query/Guard.antt =====
-- The query guard: crates/app/src/features/query/guard.rs. The SQL parser is the crate
-- `sqlparser`, a parameter here; of its syntax trees the guard reads the kind of a statement and
-- whether an UPDATE or a DELETE has a WHERE clause.
pub mod Approval
pub mod Injection
use pairdbase.Common.{
  ℕ, Bool, true, false, not, Option, none, some, List, [], ◌∷◌, Result, ok, err, is_some,
  if◌then◌else◌,
}
use pairdbase.Text.{Text, codes, Unicode, split_whitespace, join, contains}
use pairdbase.Connections.Domain.{
  DbType, postgresql, mysql, mongodb, redis, sqlite, sqlserver, oracle,
}
use pairdbase.Query.Domain.{
  StatementType, select, insert, update, delete, ddl, other, ConnectionPermission, GuardVerdict,
  approved, rejected, RejectionReason, insufficient_permission, unbounded_mutation,
  injection_suspect, parse_failure,
}

-- The parser's dialects that the guard picks.
pub data Dialect : Type 0 where
  postgre_dialect mysql_dialect mssql_dialect generic_dialect : Dialect

-- The statements that the guard tells apart; `E` is the type of a WHERE clause.
pub data Statement (E : Type 0) : Type 0 where
  query_statement insert_statement create_table create_index create_view : Statement E
  alter_table drop truncate other_statement : Statement E
  update_statement : Option E → Statement E
  delete_statement : Option E → Statement E

-- `Parser::parse_sql`, its error as the text that the guard keeps.
abbrev pub SqlParser : Type 0 → Type 0
SqlParser E = Dialect → Text → Result Text (List (Statement E))

unfoldable pub dialect_for : DbType → Dialect
dialect_for postgresql = postgre_dialect
dialect_for mysql = mysql_dialect
dialect_for sqlserver = mssql_dialect
dialect_for _ = generic_dialect

unfoldable pub is_nosql : DbType → Bool
is_nosql mongodb = true
is_nosql redis = true
is_nosql _ = false

-- The `match` of `check_permission`.
unfoldable pub allowed : StatementType → ConnectionPermission → Bool
allowed select p = p.allow_select
allowed insert p = p.allow_insert
allowed update p = p.allow_update
allowed delete p = p.allow_delete
allowed ddl p = p.allow_ddl
allowed other p = true

unfoldable pub check_permission : StatementType → ConnectionPermission → Option RejectionReason
unfolding allowed
check_permission t p = if not (allowed t p) then some (insufficient_permission t) else none

-- Each pattern with its description.
abbrev pub injection_patterns : List (Text × Text)
injection_patterns =
    (codes "; drop ", codes "stacked DROP")
    ∷ (codes "; delete ", codes "stacked DELETE")
    ∷ (codes "; insert ", codes "stacked INSERT")
    ∷ (codes "; update ", codes "stacked UPDATE")
    ∷ (codes "; truncate ", codes "stacked TRUNCATE")
    ∷ (codes "or 1=1", codes "tautology OR 1=1")
    ∷ (codes "or '1'='1'", codes "tautology OR '1'='1'")
    ∷ (codes "pg_sleep(", codes "time-delay: pg_sleep")
    ∷ (codes "sleep(", codes "time-delay: sleep()")
    ∷ (codes "waitfor delay", codes "time-delay: WAITFOR DELAY")
    ∷ (codes "dbms_pipe", codes "Oracle pipe injection")
    ∷ (codes "utl_http", codes "Oracle UTL_HTTP exfil")
    ∷ (codes "xp_cmdshell", codes "OS command: xp_cmdshell")
    ∷ (codes "load_file(", codes "file read: LOAD_FILE")
    ∷ (codes "into outfile", codes "file write: INTO OUTFILE")
    ∷ (codes "information_schema.tables", codes "schema enumeration")
    ∷ (codes "pg_catalog.pg_user", codes "user enumeration")
    ∷ (codes "sys.sql_logins", codes "SQL Server login enum")
    ∷ (codes "all_users", codes "Oracle user enumeration")
    ∷ []

-- The loop over the patterns.
unfoldable pub scan : Text → List (Text × Text) → Option RejectionReason
scan n [] = none
scan n ((pattern, desc) ∷ rest) =
    let later = scan n rest in if contains pattern n then some (injection_suspect desc) else later

unfoldable pub normalize : Unicode → Text → Text
normalize u query = join (codes " ") (split_whitespace (u.to_lowercase query))

unfoldable pub check_injection : Unicode → Text → Option RejectionReason
check_injection u query = scan (normalize u query) injection_patterns

module _ {E : Type 0} where
  unfoldable pub classify : Statement E → StatementType
  classify query_statement = select
  classify insert_statement = insert
  classify (update_statement selection) = update
  classify (delete_statement selection) = delete
  classify create_table = ddl
  classify create_index = ddl
  classify create_view = ddl
  classify alter_table = ddl
  classify drop = ddl
  classify truncate = ddl
  classify other_statement = other

  -- An UPDATE or a DELETE with no WHERE clause.
  unfoldable pub is_unbounded : Statement E → Bool
  is_unbounded (update_statement selection) = not (is_some selection)
  is_unbounded (delete_statement selection) = not (is_some selection)
  is_unbounded _ = false

  unfoldable pub check_unbounded_mutation : Statement E → StatementType → Option RejectionReason
  unfolding is_unbounded
  check_unbounded_mutation stmt t = if is_unbounded stmt then some (unbounded_mutation t) else none

  -- The stages 2, 3a and 3b, each with its early return.
  unfoldable pub check_statement :
      Unicode → Text → ConnectionPermission → Statement E → GuardVerdict
  unfolding check_permission check_unbounded_mutation check_injection
  check_statement u query permission stmt = elim (check_permission (classify stmt) permission) [
    | some reason ↦ rejected reason
    | none ↦ elim (check_unbounded_mutation stmt (classify stmt)) [
      | some reason ↦ rejected reason
      | none ↦ elim (check_injection u query) [
        | some reason ↦ rejected reason
        | none ↦ approved (classify stmt)
      ]
    ]
  ]

  -- Of what the parser returns the first statement is judged.
  unfoldable pub check_parsed :
      Unicode → Text → ConnectionPermission → Result Text (List (Statement E)) → GuardVerdict
  unfolding check_statement
  check_parsed u query permission (ok []) = rejected (parse_failure (codes "empty query"))
  check_parsed u query permission (ok (stmt ∷ rest)) = check_statement u query permission stmt
  check_parsed u query permission (err e) = rejected (parse_failure e)

  unfoldable pub evaluate :
      Unicode → SqlParser E → Text → DbType → ConnectionPermission → GuardVerdict
  unfolding check_parsed is_nosql
  evaluate u parse_sql query db_type permission =
      if is_nosql db_type
      then approved other
      else check_parsed u query permission (parse_sql (dialect_for db_type) query)
