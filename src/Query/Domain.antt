-- ===== src/Query/Domain.antt =====
-- The types of crates/app/src/features/query/domain.rs and error.rs. `Uuid`s are numbers, times
-- are nanoseconds since an epoch, and a value of a row (`serde_json::Value`) is a parameter.
use pairdbase.Common.{ℕ, Bool, true, false, Option, none, some, List, [], ◌∷◌, ◌++◌}
use pairdbase.Common.Int.{ℤ}
use pairdbase.Text.{Text, codes, match_text}

pub record ExecuteRequest : Type 0 where
  pub connection_id : ℕ
  pub workspace_id : ℕ
  pub query : Text
  pub max_rows : Option ℕ
  pub timeout_secs : Option ℕ

pub record ColumnMeta : Type 0 where
  pub name : Text
  pub data_type : Text
  pub nullable : Bool

pub data StatementType : Type 0 where
  select insert update delete ddl other : StatementType

pub data QueryEvent (V : Type 0) : Type 0 where
  started : ℕ → StatementType → QueryEvent V
  columns : ℕ → List ColumnMeta → QueryEvent V
  -- the execution, the rows and the offset of the first
  rows : ℕ → List (List V) → ℕ → QueryEvent V
  -- the execution, rows_affected, duration_ms and truncated
  completed : ℕ → ℕ → ℕ → Bool → QueryEvent V
  -- the execution, the message and duration_ms
  failed : ℕ → Text → ℕ → QueryEvent V
  rejected_event : ℕ → Text → QueryEvent V
  session_expired_event : ℕ → Text → QueryEvent V
  connection_lost : ℕ → ℕ → Text → QueryEvent V

pub data RejectionReason : Type 0 where
  insufficient_permission : StatementType → RejectionReason
  unbounded_mutation : StatementType → RejectionReason
  injection_suspect : Text → RejectionReason
  parse_failure : Text → RejectionReason

pub data GuardVerdict : Type 0 where
  approved : StatementType → GuardVerdict
  rejected : RejectionReason → GuardVerdict

-- `{:?}` of a statement type.
unfoldable pub debug_name : StatementType → Text
debug_name select = codes "Select"
debug_name insert = codes "Insert"
debug_name update = codes "Update"
debug_name delete = codes "Delete"
debug_name ddl = codes "Ddl"
debug_name other = codes "Other"

unfoldable pub message : RejectionReason → Text
unfolding debug_name
message (insufficient_permission t) =
    codes "You do not have permission to run "
    ++ (debug_name t ++ codes " statements on this connection.")
message (unbounded_mutation t) =
    debug_name t
    ++ codes
        " without a WHERE clause is blocked. Add a WHERE clause or contact your workspace admin."
message (injection_suspect detail) = codes "Query blocked — suspected injection pattern: " ++ detail
message (parse_failure detail) = codes "Query could not be parsed: " ++ detail

pub record ConnectionPermission : Type 0 where
  pub allow_select : Bool
  pub allow_insert : Bool
  pub allow_update : Bool
  pub allow_delete : Bool
  pub allow_ddl : Bool

unfoldable pub default_permission : ConnectionPermission
default_permission = record {
  allow_select = true;
  allow_insert = false;
  allow_update = false;
  allow_delete = false;
  allow_ddl = false;
}

pub data HistoryStatus : Type 0 where
  success error rejected_status cancelled : HistoryStatus

unfoldable pub status_as_str : HistoryStatus → Text
status_as_str success = codes "success"
status_as_str error = codes "error"
status_as_str rejected_status = codes "rejected"
status_as_str cancelled = codes "cancelled"

abbrev or_error : Option HistoryStatus → HistoryStatus
or_error none = error
or_error (some s) = s

-- `From<String>`: an unknown text is an error.
unfoldable pub status_from : Text → HistoryStatus
unfolding match_text
status_from value = or_error (
    match_text value (
      (codes "success", success)
      ∷ (codes "error", error)
      ∷ (codes "rejected", rejected_status)
      ∷ (codes "cancelled", cancelled)
      ∷ []))

pub record QueryHistoryRecord : Type 0 where
  pub id : ℕ
  pub organization_id : ℕ
  pub workspace_id : ℕ
  pub connection_id : ℕ
  pub user_id : ℕ
  pub query_text : Text
  pub query_hash : Text
  pub status : HistoryStatus
  pub rejection_reason : Option Text
  pub duration_ms : Option ℤ
  pub rows_affected : Option ℤ
  pub error_message : Option Text
  pub executed_at : ℕ
  pub created_by : ℕ
  pub created_at : ℕ

pub data QueryError : Type 0 where
  not_connected session_expired no_session connection_not_found : QueryError
  rejected_error : Text → QueryError
  execution_failed : Text → QueryError
  timeout : ℕ → QueryError
  permission_error : Text → QueryError
  internal : Text → QueryError
