-- ===== src/Query/Examples.antt =====
-- Concrete queries, sessions and worlds, and the theorems about queries at them.
mod Guards
mod Sessions
mod Executions
use pairdbase.Common.{ℕ, true, false, Option, none, some, List, [], ◌∷◌, ok}
use pairdbase.Text.{Text, codes}
use pairdbase.Connections.Domain.{postgresql, mongodb}
use pairdbase.Query.Domain.{ExecuteRequest, default_permission}
use pairdbase.Query.Guard.{Statement, SqlParser, query_statement, delete_statement, create_table}
use pairdbase.Query.Session.{SessionRegistry, opened}
use pairdbase.Query.Executor.{Drivers, postgres_pool}
use pairdbase.Query.UseCase.{World, Readings}

-- A parser that takes every text for the same statements.
abbrev pub parses_to : List (Statement ℕ) → SqlParser ℕ
parses_to statements dialect query = ok statements

abbrev pub a_select : SqlParser ℕ
a_select = parses_to (query_statement ∷ [])

-- DELETE FROM t, with no WHERE clause.
abbrev pub a_delete : SqlParser ℕ
a_delete = parses_to (delete_statement none ∷ [])

abbrev pub a_stack : SqlParser ℕ
a_stack = parses_to (query_statement ∷ create_table ∷ [])

abbrev pub select_one : Text
select_one = codes "SELECT  1"

-- User 7 has the session 1 on the PostgreSQL connection 3 since the time 0.
abbrev pub one_session : SessionRegistry
one_session = record {
  sessions = (1, opened 1 0 3 7 postgresql) ∷ [];
  by_user = (7, 1 ∷ []) ∷ [];
  events = [];
}

-- The same on a MongoDB connection.
abbrev pub mongo_session : SessionRegistry
mongo_session = record {
  sessions = (1, opened 1 0 3 7 mongodb) ∷ [];
  by_user = (7, 1 ∷ []) ∷ [];
  events = [];
}

-- Databases that answer each query by the same rows and have nothing to say otherwise.
abbrev pub answering : List ℕ → Drivers ℕ ℕ ℕ ℕ
answering rows = record {
  fetch_all = λ h q. ok rows;
  row_columns = λ r. [];
  row_values = λ r. r ∷ [];
  number = λ n. n;
  oracle_get = λ h. ok tt;
  oracle_query = λ h q. ok ([], []);
  oracle_execute = λ h q. ok 0;
  oracle_commit = λ h. ok tt;
  sqlserver_get = λ h. ok tt;
  sqlserver_query = λ h q. ok [];
  sqlserver_execute = λ h q. ok [];
  parse_document = λ q. ok 0;
  get_str = λ d k. none;
  get_array = λ d k. none;
  get_document = λ d k. none;
  empty_document = 0;
  aggregate = λ h a b s. ok [];
  find_documents = λ h a b s. ok [];
  document_value = λ d. d;
  redis_connect = λ h. ok tt;
  redis_command = λ h c a. ok 0;
}

abbrev pub world_of : SessionRegistry → World ℕ
world_of sessions = record {
  sessions = sessions;
  pools = (3, postgres_pool 0) ∷ [];
  permissions = [];
  history = [];
  sent = [];
}

abbrev pub request : ExecuteRequest
request = record {
  connection_id = 3;
  workspace_id = 4;
  query = select_one;
  max_rows = some 2;
  timeout_secs = none;
}

abbrev pub readings : Readings
readings = record {
  execution_id = 20;
  history_id = 21;
  looked_up_at = 5;
  checked_at = 6;
  touched_at = 9;
  executed_at = 10;
  created_at = 11;
  elapsed_ms = 3;
  in_time = true;
  permission_fault = none;
  history_fault = none;
}
