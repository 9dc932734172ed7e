-- ===== src/Query/Executor.antt =====
-- The executor of queries: crates/app/src/features/query/executor.rs. The client libraries of the
-- databases are parameters (`Drivers`): what they answer to one call. So are their conversions of
-- a cell to JSON. What the executor itself does stands here: the choice of the driver, the limit
-- on rows, the time limit, and how results and errors are put together.

pub mod Limits
use pairdbase.Common.{
  ℕ, ◌+◌, ◌%◌, ◌^◌, Bool, true, false, ◌||◌, Option, none, some, List, [], ◌∷◌, ◌++◌, map, Result,
  ok, err, ◌>>=◌, ◌>>◌, map_err, ok_or, ◌==◌, ltb, leb, if◌then◌else◌, length, take,
}
use pairdbase.Common.Maps.{Map, lookup}
use pairdbase.Text.{Text, codes, Unicode, trim, starts_with, split_whitespace}
use pairdbase.Query.Domain.{ColumnMeta, QueryError, execution_failed, connection_not_found, timeout}

pub record RawResult (V : Type 0) : Type 0 where
  pub columns : List ColumnMeta
  pub rows : List (List V)
  pub truncated : Bool
  pub rows_affected : ℕ

-- `ExecutionPool`, over the handles of the client libraries.
pub data ExecutionPool (H : Type 0) : Type 0 where
  postgres_pool mysql_pool sqlite_pool oracle_pool sqlserver_pool mongodb_pool redis_pool :
      H → ExecutionPool H

-- What the client libraries answer. An error is its text.
pub record Drivers (H V Row Doc : Type 0) : Type 0 where
  -- sqlx, for PostgreSQL, MySQL and SQLite
  pub fetch_all : H → Text → Result Text (List Row)
  pub row_columns : Row → List ColumnMeta
  pub row_values : Row → List V
  pub number : ℕ → V
  -- oracle: a connection of the pool, then a query (its columns and cursor) or a statement (its
  -- count of rows), and the commit
  pub oracle_get : H → Result Text (Unit {0})
  pub oracle_query : H → Text → Result Text (List ColumnMeta × List (Result Text Row))
  pub oracle_execute : H → Text → Result Text ℕ
  pub oracle_commit : H → Result Text (Unit {0})
  -- tiberius: the result sets of a query, the counts of rows of a statement
  pub sqlserver_get : H → Result Text (Unit {0})
  pub sqlserver_query : H → Text → Result Text (List (List Row))
  pub sqlserver_execute : H → Text → Result Text (List ℕ)
  -- mongodb: the parser of a request, access to its fields, and the two requests
  pub parse_document : Text → Result Text Doc
  pub get_str : Doc → Text → Option Text
  pub get_array : Doc → Text → Option (List (Option Doc))
  pub get_document : Doc → Text → Option Doc
  pub empty_document : Doc
  pub aggregate : H → Text → Text → List Doc → Result Text (List (Result Text Doc))
  pub find_documents : H → Text → Text → Doc → Result Text (List (Result Text Doc))
  pub document_value : Doc → V
  -- redis: a connection, and a command with its arguments, its answer as JSON
  pub redis_connect : H → Result Text (Unit {0})
  pub redis_command : H → Text → List Text → Result Text V

abbrev column : Text → Text → Bool → ColumnMeta
column name data_type nullable = record { name = name; data_type = data_type; nullable = nullable }

abbrev first_columns : {Row : Type 0} → (Row → List ColumnMeta) → List Row → List ColumnMeta
first_columns columns_of [] = []
first_columns columns_of (r ∷ rs) = columns_of r

-- The rows of a result that is there as a whole, cut to the limit.
unfoldable pub limit_rows :
    {V Row : Type 0} → (Row → List ColumnMeta) → (Row → List V) → ℕ → List Row → RawResult V
limit_rows columns_of values_of max_rows fetched =
    let slice = take max_rows fetched in
    record {
      columns = first_columns columns_of slice;
      rows = map values_of slice;
      truncated = ltb max_rows (length fetched);
      rows_affected = length fetched;
    }

-- The loop over an Oracle cursor: the limit is tested before a row's error is looked at.
unfoldable pub read_oracle :
    {Row : Type 0} → ℕ → List Row → List (Result Text Row) → Result Text (List Row × Bool)
read_oracle max_rows acc [] = ok (acc, false)
read_oracle max_rows acc (r ∷ cursor) =
    if leb max_rows (length acc)
    then ok (acc, true)
    else r >>= λ row. read_oracle max_rows (acc ++ row ∷ []) cursor

-- The loop over a MongoDB cursor: an error is looked at before the limit is tested.
unfoldable pub read_mongodb :
    {Doc : Type 0} → ℕ → List Doc → List (Result Text Doc) → Result Text (List Doc × Bool)
read_mongodb max_rows acc [] = ok (acc, false)
read_mongodb max_rows acc (r ∷ cursor) = r >>= λ doc.
    if leb max_rows (length acc)
    then ok (acc, true)
    else read_mongodb max_rows (acc ++ doc ∷ []) cursor

-- The test by which Oracle and SQL Server choose between a query and a statement.
unfoldable pub is_query : Unicode → Text → Bool
is_query u query =
    let upper = u.to_uppercase (trim query) in
    starts_with (codes "SELECT") upper
    || starts_with (codes "WITH") upper
    || starts_with (codes "(") upper

unfoldable pub sum : List ℕ → ℕ
sum [] = 0
sum (n ∷ ns) = n + sum ns

-- `splitn(2, ' ')`: what stands before the first space, and what stands behind it.
unfoldable pub split_once : Text → Text × Text
split_once [] = ([], [])
split_once (c ∷ t) =
    let (word, rest) = split_once t in if c == b' ' then ([], t) else (c ∷ word, rest)

-- `filter_map` of the stages that are documents.
abbrev documents : {Doc : Type 0} → List (Option Doc) → List Doc
documents [] = []
documents (none ∷ stages) = documents stages
documents (some d ∷ stages) = d ∷ documents stages

abbrev or_text : Option Text → Text → Text
or_text none t = t
or_text (some s) t = s

abbrev or_document : {Doc : Type 0} → Option Doc → Doc → Doc
or_document none d = d
or_document (some e) d = e

module _ {H V Row Doc : Type 0} (u : Unicode) (d : Drivers H V Row Doc) where
  unfoldable pub run_sqlx : H → Text → ℕ → Result QueryError (RawResult V)
  unfolding limit_rows
  run_sqlx pool query max_rows = do
    fetched ← map_err execution_failed (d.fetch_all pool query)
    ok (limit_rows d.row_columns d.row_values max_rows fetched)

  unfoldable pub execute_oracle_query : H → Text → ℕ → Result QueryError (RawResult V)
  unfolding read_oracle
  execute_oracle_query pool query max_rows = do
    opened ← map_err execution_failed (d.oracle_query pool query)
    got ← map_err execution_failed (read_oracle max_rows [] opened.1)
    ok (record {
      columns = opened.0;
      rows = map d.row_values got.0;
      truncated = got.1;
      rows_affected = length got.0;
    })

  -- A statement's result is one row with the count of the rows that it affected.
  abbrev affected_result : Text → ℕ → RawResult V
  affected_result type_name affected = record {
    columns = column (codes "rows_affected") type_name false ∷ [];
    rows = (d.number affected ∷ []) ∷ [];
    truncated = false;
    rows_affected = affected;
  }

  unfoldable pub execute_oracle_dml : H → Text → Result QueryError (RawResult V)
  execute_oracle_dml pool query = do
    affected ← map_err execution_failed (d.oracle_execute pool query)
    map_err execution_failed (d.oracle_commit pool)
    ok (affected_result (codes "INTEGER") affected)

  unfoldable pub run_oracle : H → Text → ℕ → Result QueryError (RawResult V)
  unfolding is_query execute_oracle_query execute_oracle_dml
  run_oracle pool query max_rows =
      map_err execution_failed (d.oracle_get pool)
      >> (if is_query u query
          then execute_oracle_query pool query max_rows
          else execute_oracle_dml pool query)

  abbrev first_set : ℕ → List (List Row) → RawResult V
  first_set max_rows [] = record { columns = []; rows = []; truncated = false; rows_affected = 0 }
  first_set max_rows (rows ∷ more) = limit_rows d.row_columns d.row_values max_rows rows

  unfoldable pub execute_sqlserver_query : H → Text → ℕ → Result QueryError (RawResult V)
  unfolding limit_rows
  execute_sqlserver_query pool query max_rows = do
    results ← map_err execution_failed (d.sqlserver_query pool query)
    ok (first_set max_rows results)

  unfoldable pub execute_sqlserver_dml : H → Text → Result QueryError (RawResult V)
  unfolding sum
  execute_sqlserver_dml pool query = do
    counts ← map_err execution_failed (d.sqlserver_execute pool query)
    ok (affected_result (codes "BIGINT") (sum counts % 2 ^ 64))

  unfoldable pub run_sqlserver : H → Text → ℕ → Result QueryError (RawResult V)
  unfolding is_query execute_sqlserver_query execute_sqlserver_dml
  run_sqlserver pool query max_rows =
      map_err execution_failed (d.sqlserver_get pool)
      >> (if is_query u query
          then execute_sqlserver_query pool query max_rows
          else execute_sqlserver_dml pool query)

  abbrev open_cursor :
      H → Text → Text → Doc → Option (List (Option Doc)) → Result Text (List (Result Text Doc))
  open_cursor pool db coll doc (some pipeline) = d.aggregate pool db coll (documents pipeline)
  open_cursor pool db coll doc none =
      d.find_documents pool db coll
        (or_document (d.get_document doc (codes "filter")) d.empty_document)

  unfoldable pub run_mongodb : H → Text → ℕ → Result QueryError (RawResult V)
  unfolding read_mongodb
  run_mongodb pool query max_rows = do
    doc ←
        map_err (λ e. execution_failed (codes "MongoDB query must be valid JSON: " ++ e))
          (d.parse_document query)
    coll ←
        ok_or (d.get_str doc (codes "collection"))
          (execution_failed (codes "MongoDB query requires a 'collection' field"))
    cursor ← map_err execution_failed (
        open_cursor pool (or_text (d.get_str doc (codes "database")) (codes "test")) coll doc
          (d.get_array doc (codes "pipeline")))
    got ← map_err execution_failed (read_mongodb max_rows [] cursor)
    ok (record {
      columns = column (codes "document") (codes "bson") false ∷ [];
      rows = map (λ x. d.document_value x ∷ []) got.0;
      truncated = got.1;
      rows_affected = length got.0;
    })

  unfoldable pub run_redis : H → Text → Result QueryError (RawResult V)
  unfolding split_once
  run_redis pool query = do
    map_err execution_failed (d.redis_connect pool)
    let parts = split_once (trim query)
    value ←
        map_err execution_failed
          (d.redis_command pool (u.to_uppercase parts.0) (split_whitespace parts.1))
    ok (record {
      columns = column (codes "result") (codes "redis_value") true ∷ [];
      rows = (value ∷ []) ∷ [];
      truncated = false;
      rows_affected = 1;
    })

  unfoldable pub dispatch : ExecutionPool H → Text → ℕ → Result QueryError (RawResult V)
  unfolding run_sqlx run_oracle run_sqlserver run_mongodb run_redis
  dispatch (postgres_pool p) query max_rows = run_sqlx p query max_rows
  dispatch (mysql_pool p) query max_rows = run_sqlx p query max_rows
  dispatch (sqlite_pool p) query max_rows = run_sqlx p query max_rows
  dispatch (oracle_pool p) query max_rows = run_oracle p query max_rows
  dispatch (sqlserver_pool p) query max_rows = run_sqlserver p query max_rows
  dispatch (mongodb_pool p) query max_rows = run_mongodb p query max_rows
  dispatch (redis_pool p) query max_rows = run_redis p query

  -- `in_time` is whether the driver answers within the time limit.
  unfoldable pub run :
      Map (ExecutionPool H) → ℕ → Text → ℕ → ℕ → Bool → Result QueryError (RawResult V)
  unfolding dispatch
  run pools connection_id query max_rows timeout_secs in_time = do
    pool ← ok_or (lookup connection_id pools) connection_not_found
    if in_time then dispatch pool query max_rows else err (timeout timeout_secs)
