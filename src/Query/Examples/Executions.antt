-- ===== src/Query/Examples/Executions.antt =====
-- The theorems about executing at concrete requests.
use pairdbase.Common.{ℕ, ◌≡◌, ◌≢◌, ◌≤◌, refl, true, false, none, some, [], ◌∷◌, ok, arith, length}
use pairdbase.Common.Maps.{lookup}
use pairdbase.Text.{Text, ascii, ascii_lower, contains, join, split_whitespace}
use pairdbase.Connections.Domain.{postgresql, mongodb}
use pairdbase.Query.Domain.{
  ConnectionPermission, StatementType, approved, default_permission, select,
}
use pairdbase.Query.Guard.{evaluate, classify, is_nosql, scan, normalize}
use pairdbase.Query.Repository.{get_permission, select_permission, save_history, PermissionRow}
use pairdbase.Query.Session.{
  QuerySession, opened, get_for_connection, ttl_for, find_usable, is_expired, touch, touch_session,
}
use pairdbase.Query.Executor.{RawResult, postgres_pool, run, dispatch, run_sqlx, limit_rows}
use pairdbase.Query.UseCase.{
  execute, execute_in, judged, success_events, hash_query, open_session, report, finish,
  max_rows_of, timeout_of,
}
use pairdbase.Query.UseCase.Batches.{delivered, InSequence, success_events-deliver}
use pairdbase.Query.UseCase.Access.{execute_guarded, execute_limited}
use pairdbase.Query.UseCase.Opening.{Opens, open_session-Opens, execute_nosql_ignores_permissions}
use pairdbase.Query.UseCase.Audit.{Audited, execute-Audited}
use pairdbase.Query.Examples.{
  a_select, a_delete, select_one, one_session, mongo_session, answering, world_of, request,
  readings,
}
use pairdbase.Query.Examples.Sessions.{one_session-IsValid, second_IsFresh}

abbrev digest : Text → Text
digest t = t

the_session :
    (s : QuerySession)
    → get_for_connection one_session 7 3 5 ≡ some s
    → opened 1 0 3 7 postgresql ≡ s
unfolding get_for_connection lookup ttl_for
the_session s h = cc

the_permission :
    (p : ConnectionPermission) → get_permission none [] 3 7 ≡ ok p → default_permission ≡ p
unfolding get_permission
the_permission p h = cc

delete_rejected :
    (t : StatementType)
    → evaluate ascii a_delete select_one postgresql default_permission ≢ approved t
unfolding evaluate ascii ascii_lower classify default_permission scan contains normalize join
    split_whitespace
delete_rejected t h = cc

-- A DELETE without a WHERE clause has no effect on the databases.
execute_guarded_example :
    ((execute ascii a_delete digest
        (answering (1 ∷ []))
        (world_of one_session)
        request
        7
        2
        readings).1.sent
      ≡ [])
    × (execute ascii a_delete digest
          (answering (1 ∷ []))
          (world_of one_session)
          request
          7
          2
          readings
        ≡ execute ascii a_delete digest (answering []) (world_of one_session) request 7 2 readings)
execute_guarded_example =
    execute_guarded ascii a_delete digest (answering (1 ∷ [])) (answering []) (world_of one_session)
      request 7 2 readings
      (λ s p t h k. rw (← the_session s h, ← the_permission p k) (delete_rejected t))

execute-Audited_example :
    Audited request 7 (world_of one_session) (
      execute ascii a_select digest
        (answering (1 ∷ []))
        (world_of one_session)
        request
        7
        2
        readings)
execute-Audited_example =
    execute-Audited ascii a_select digest (answering (1 ∷ [])) (world_of one_session) request 7 2
      readings

-- Three rows, of which the request takes two.
abbrev two_rows : RawResult ℕ
two_rows = record {
  columns = [];
  rows = (1 ∷ []) ∷ (2 ∷ []) ∷ [];
  truncated = true;
  rows_affected = 3;
}

executed :
    (execute ascii a_select digest
      (answering (1 ∷ 2 ∷ 3 ∷ []))
      (world_of one_session)
      request
      7
      2
      readings).0
    ≡ ok (success_events 20 select two_rows 3)
unfolding execute execute_in judged report finish save_history get_permission select_permission
    get_for_connection find_usable is_expired lookup ttl_for max_rows_of timeout_of run dispatch
    run_sqlx limit_rows evaluate ascii ascii_lower classify default_permission scan contains
    normalize join split_whitespace touch touch_session hash_query
executed = refl

execute_limited_example : length (delivered (success_events 20 select two_rows 3)) ≤ 100000
execute_limited_example =
    execute_limited ascii a_select digest (answering (1 ∷ 2 ∷ 3 ∷ [])) (world_of one_session)
      request 7 2 readings (success_events 20 select two_rows 3) executed

success_events-deliver_example :
    (delivered (success_events 20 select two_rows 3) ≡ two_rows.rows)
    × InSequence 0 (success_events 20 select two_rows 3)
success_events-deliver_example = success_events-deliver 20 select two_rows 3

ran :
    run ascii (answering (1 ∷ 2 ∷ 3 ∷ [])) ((3, postgres_pool 0) ∷ []) 3 select_one 2 30 true
    ≡ ok two_rows
unfolding run dispatch run_sqlx limit_rows lookup
ran = refl

open_session-Opens_example :
    Opens
      (world_of one_session)
      3
      8
      2
      5
      6
      (open_session (world_of one_session) 3 8 2 5 6 (ok postgresql) (ok (postgres_pool 1)))
open_session-Opens_example =
    open_session-Opens (world_of one_session) 3 8 2 5 6 (ok postgresql) (ok (postgres_pool 1))
      one_session-IsValid second_IsFresh (omega arith)

the_mongo_session : get_for_connection mongo_session 7 3 5 ≡ some (opened 1 0 3 7 mongodb)
unfolding get_for_connection lookup ttl_for
the_mongo_session = refl

abbrev denied : PermissionRow
denied = record {
  connection_id = 3;
  user_id = some 7;
  permission = record {
    allow_select = false;
    allow_insert = false;
    allow_update = false;
    allow_delete = false;
    allow_ddl = false;
  };
}

-- A table that denies the user everything, where the other is empty.
execute_nosql_ignores_permissions_example :
    (execute ascii a_select digest
      (answering (1 ∷ []))
      (world_of mongo_session)
      request
      7
      2
      readings).0
    ≡ (execute ascii a_select digest
        (answering (1 ∷ []))
        (record (world_of mongo_session) { permissions = denied ∷ [] })
        request
        7
        2
        readings).0
unfolding is_nosql
execute_nosql_ignores_permissions_example =
    execute_nosql_ignores_permissions ascii a_select digest (answering (1 ∷ []))
      (world_of mongo_session) request 7 2 readings (denied ∷ []) (opened 1 0 3 7 mongodb)
      the_mongo_session refl refl
