-- ===== src/Query/UseCase.antt =====
-- The query use cases: crates/app/src/features/query/use_case.rs. What a call reads from outside
-- (clocks, generators of ids, the faults of the database) is its `Readings`; `sha256_hex` is the
-- digest of a text, written in hexadecimal.
pub mod Batches
pub mod Cases
pub mod Access
pub mod Opening
pub mod Audit
use Prim.Native.Nat.{min}
use mathlib.Core.Option
use pairdbase.Common.{
  ℕ, zero, suc, ◌+◌, ◌*◌, ◌%◌, ◌^◌, Bool, Option, none, some, List, [], ◌∷◌, ◌++◌, Result, ok, err,
  length, take, drop, if◌then◌else◌,
}
use pairdbase.Common.Int.{as_i64}
use pairdbase.Common.Maps.{Map, insert, contains_key}
use pairdbase.Text.{Text, decimal, codes, Unicode, split_whitespace, join}
use pairdbase.Connections.Domain.{DbType}
use pairdbase.Query.Domain.{
  ExecuteRequest, StatementType, QueryEvent, started, columns, rows, completed, failed,
  rejected_event, session_expired_event, message, approved, rejected, GuardVerdict, HistoryStatus,
  success, error, rejected_status, QueryHistoryRecord, QueryError, session_expired, no_session,
  connection_not_found, not_connected, rejected_error, execution_failed, timeout, permission_error,
  internal,
}
use pairdbase.Query.Guard.{SqlParser, evaluate}
use pairdbase.Query.Session.{
  SessionRegistry, QuerySession, create, get_for_connection, is_expired, touch, expire,
  list_for_user,
}
use pairdbase.Query.Executor.{ExecutionPool, Drivers, RawResult, run}
use pairdbase.Query.Repository.{PermissionRow, get_permission, save_history}

-- `Display` of a `QueryError`; `decimal` writes a number.
unfoldable pub error_text : QueryError → Text
error_text not_connected = codes "not connected — call POST /query/connect first"
error_text session_expired = codes "session expired — please reconnect"
error_text no_session = codes "no active session for this connection — call /connect first"
error_text (rejected_error m) = codes "query rejected: " ++ m
error_text (execution_failed m) = codes "execution failed: " ++ m
error_text (timeout n) = codes "query timed out after " ++ (decimal n ++ codes "s")
error_text (permission_error m) = codes "permission lookup failed: " ++ m
error_text connection_not_found = codes "connection not found"
error_text (internal m) = codes "internal error: " ++ m

unfoldable pub hash_query : (Text → Text) → Text → Text
hash_query sha256_hex query = sha256_hex (join (codes " ") (split_whitespace query))

pub record World (H : Type 0) : Type 0 where
  pub sessions : SessionRegistry
  pub pools : Map (ExecutionPool H)
  pub permissions : List PermissionRow
  pub history : List QueryHistoryRecord
  -- the queries that the executor was given, each with its connection, in order
  pub sent : List (ℕ × Text)

pub record Readings : Type 0 where
  pub execution_id : ℕ
  pub history_id : ℕ
  -- the clock when the session is looked up, when it is checked again, when it is touched
  pub looked_up_at : ℕ
  pub checked_at : ℕ
  pub touched_at : ℕ
  pub executed_at : ℕ
  pub created_at : ℕ
  pub elapsed_ms : ℕ
  pub in_time : Bool
  pub permission_fault : Option Text
  pub history_fault : Option Text

-- `slice::chunks`; the length of the list is fuel enough.
unfoldable pub chunks {ℓ} : {A : Type ℓ} → ℕ → ℕ → List A → List (List A)
chunks zero k xs = []
chunks (suc fuel) k [] = []
chunks (suc fuel) k (x ∷ xs) = take k (x ∷ xs) ∷ chunks fuel k (drop k (x ∷ xs))

abbrev pub batch_size : ℕ
batch_size = 500

-- The loop over the enumerated chunks.
unfoldable pub row_events : {V : Type 0} → ℕ → ℕ → List (List (List V)) → List (QueryEvent V)
row_events execution_id offset [] = []
row_events execution_id offset (chunk ∷ more) =
    rows execution_id chunk (offset * batch_size) ∷ row_events execution_id (offset + 1) more

unfoldable pub success_events :
    {V : Type 0} → ℕ → StatementType → RawResult V → ℕ → List (QueryEvent V)
unfolding chunks row_events
success_events execution_id t raw duration_ms =
    started execution_id t
    ∷ columns execution_id raw.columns
    ∷ (row_events execution_id 0 (chunks (length raw.rows) batch_size raw.rows)
        ++ completed execution_id (length raw.rows) duration_ms raw.truncated ∷ [])

abbrev or_number : Option ℕ → ℕ → ℕ
or_number none n = n
or_number (some m) n = m

unfoldable pub max_rows_of : ExecuteRequest → ℕ
max_rows_of req = min (or_number req.max_rows 1000) 100000

unfoldable pub timeout_of : ExecuteRequest → ℕ
timeout_of req = min (or_number req.timeout_secs 30) 300

-- The record of an execution.
abbrev history_of :
    ExecuteRequest
    → ℕ
    → ℕ
    → Text
    → Readings
    → HistoryStatus
    → Option Text
    → Option ℕ
    → Option ℕ
    → Option Text
    → QueryHistoryRecord
history_of req user_id organization_id query_hash i status reason duration_ms affected message =
    record {
      id = i.history_id;
      organization_id = organization_id;
      workspace_id = req.workspace_id;
      connection_id = req.connection_id;
      user_id = user_id;
      query_text = req.query;
      query_hash = query_hash;
      status = status;
      rejection_reason = reason;
      duration_ms = Option.map as_i64 duration_ms;
      rows_affected = Option.map as_i64 affected;
      error_message = message;
      executed_at = i.executed_at;
      created_by = user_id;
      created_at = i.created_at;
    }

module _ {H V : Type 0} where
  -- `save_history(..).await?`, and then the events.
  unfoldable pub finish :
      World H
      → Option Text
      → QueryHistoryRecord
      → List (QueryEvent V)
      → Result QueryError (List (QueryEvent V)) × World H
  unfolding save_history
  finish w fault r events = elim (save_history fault r w.history) [
    | err e ↦ (err e, w)
    | ok history ↦ (ok events, record w { history = history })
  ]

  -- What is stored and returned of a result of the executor.
  unfoldable pub report :
      World H
      → ExecuteRequest
      → ℕ
      → ℕ
      → Text
      → Readings
      → StatementType
      → Result QueryError (RawResult V)
      → Result QueryError (List (QueryEvent V)) × World H
  unfolding finish success_events error_text
  report w req user_id organization_id hash i t (ok raw) =
      let duration_ms = i.elapsed_ms % 2 ^ 64 in
      finish w i.history_fault
        (history_of req user_id organization_id hash i success none (some duration_ms)
          (some (length raw.rows)) none)
        (success_events i.execution_id t raw duration_ms)
  report w req user_id organization_id hash i t (err e) =
      let duration_ms = i.elapsed_ms % 2 ^ 64 in
      finish w i.history_fault
        (history_of req user_id organization_id hash i error none (some duration_ms) none
          (some (error_text e)))
        (failed i.execution_id (error_text e) duration_ms ∷ [])

module _ {H : Type 0} where
  unfoldable pub close_session : World H → ℕ → World H
  close_session w session_id = record w { sessions = expire w.sessions session_id }

  unfoldable pub list_sessions : World H → ℕ → ℕ → List QuerySession
  list_sessions w user_id now = list_for_user w.sessions user_id now

  -- The end of `open_session`.
  unfoldable pub start_session :
      World H → ℕ → ℕ → ℕ → ℕ → DbType → Result QueryError QuerySession × World H
  start_session w connection_id user_id session_id created_at db_type =
      let (sessions, session) =
        create w.sessions session_id created_at connection_id user_id db_type in
      (ok session, record w { sessions = sessions })

  -- `connection` is what the connection store answers, `pool` what `build_execution_pool` does.
  unfoldable pub open_session :
      World H
      → ℕ
      → ℕ
      → ℕ
      → ℕ
      → ℕ
      → Result Text DbType
      → Result Text (ExecutionPool H)
      → Result QueryError QuerySession × World H
  unfolding start_session
  open_session w connection_id user_id session_id looked_up_at created_at connection pool =
      elim (get_for_connection w.sessions user_id connection_id looked_up_at) [
        | some existing ↦ (ok existing, w)
        | none ↦ elim connection [
          | err e ↦ (err connection_not_found, w)
          | ok db_type ↦
              if contains_key connection_id w.pools
              then start_session w connection_id user_id session_id created_at db_type
              else elim pool [
                | err e ↦ (err (execution_failed e), w)
                | ok p ↦
                    start_session (record w { pools = insert connection_id p w.pools })
                      connection_id user_id session_id created_at db_type
              ]
        ]
      ]

module _ {H V Row Doc E : Type 0} (u : Unicode) (parse_sql : SqlParser E) (sha256_hex : Text → Text)
    (d : Drivers H V Row Doc) where
  -- The executor is given the query, which `sent` records; it is called nowhere else.
  abbrev pub hand_over :
      World H → ExecuteRequest → Readings → Result QueryError (RawResult V) × World H
  hand_over w req i = (
    run u d w.pools req.connection_id req.query (max_rows_of req) (timeout_of req) i.in_time,
    record w { sent = w.sent ++ (req.connection_id, req.query) ∷ [] },
  )

  -- The guard's verdict, and what follows from it.
  unfoldable pub judged :
      World H
      → ExecuteRequest
      → ℕ
      → ℕ
      → Readings
      → QuerySession
      → GuardVerdict
      → Result QueryError (List (QueryEvent V)) × World H
  unfolding finish report message hash_query
  judged w req user_id organization_id i session (rejected reason) =
      finish w i.history_fault
        (history_of req user_id organization_id (hash_query sha256_hex req.query) i rejected_status
          (some (message reason)) none none none)
        (rejected_event i.execution_id (message reason) ∷ [])
  judged w req user_id organization_id i session (approved t) =
      let (result, ran) = hand_over w req i in
      let touched = (touch ran.sessions session.session_id i.touched_at).0 in
      report (record ran { sessions = touched }) req user_id organization_id
        (hash_query sha256_hex req.query) i t result

  -- With a session: its second check, the permission, the guard.
  unfoldable pub execute_in :
      World H
      → ExecuteRequest
      → ℕ
      → ℕ
      → Readings
      → QuerySession
      → Result QueryError (List (QueryEvent V)) × World H
  unfolding judged get_permission
  execute_in w req user_id organization_id i session =
      if is_expired session i.checked_at
      then (
        ok (
            session_expired_event req.connection_id
              (codes "Session expired. Please reconnect to continue.")
            ∷ []),
        w,
      )
      else elim (get_permission i.permission_fault w.permissions req.connection_id user_id) [
        | err e ↦ (err e, w)
        | ok permission ↦
            judged w req user_id organization_id i session
              (evaluate u parse_sql req.query session.db_type permission)
      ]

  unfoldable pub execute :
      World H
      → ExecuteRequest
      → ℕ
      → ℕ
      → Readings
      → Result QueryError (List (QueryEvent V)) × World H
  unfolding execute_in
  execute w req user_id organization_id i =
      elim (get_for_connection w.sessions user_id req.connection_id i.looked_up_at) [
        | none ↦ (err no_session, w)
        | some session ↦ execute_in w req user_id organization_id i session
      ]
