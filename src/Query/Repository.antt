-- ===== src/Query/Repository.antt =====
-- What is stored of queries: crates/app/src/features/query/repository.rs. A table is a list of
-- rows, and `fault` is the error of the database for the call, if there is one.
use pairdbase.Common.{
  ℕ, Bool, true, false, ◌&&◌, Option, none, some, List, [], ◌∷◌, ◌++◌, Result, ok, err, ◌==◌, find,
}
use pairdbase.Text.{Text}
use pairdbase.Query.Domain.{
  ConnectionPermission, default_permission, QueryError, permission_error, internal,
  QueryHistoryRecord,
}

-- A row of TBL_CONNECTION_PERMISSIONS; with no user it is for all.
pub record PermissionRow : Type 0 where
  pub connection_id : ℕ
  pub user_id : Option ℕ
  pub permission : ConnectionPermission

abbrev is_for : ℕ → Option ℕ → Bool
is_for user none = false
is_for user (some other) = other == user

abbrev is_null : Option ℕ → Bool
is_null none = true
is_null (some user) = false

abbrev first_of_rows : Option PermissionRow → Option PermissionRow → ConnectionPermission
first_of_rows (some own) shared = own.permission
first_of_rows none (some shared) = shared.permission
first_of_rows none none = default_permission

-- `ORDER BY user_id NULLS LAST LIMIT 1`: the user's own row stands before the shared one.
unfoldable pub select_permission : List PermissionRow → ℕ → ℕ → ConnectionPermission
unfolding default_permission
select_permission table connection_id user_id =
    first_of_rows (find (λ r. r.connection_id == connection_id && is_for user_id r.user_id) table)
      (find (λ r. r.connection_id == connection_id && is_null r.user_id) table)

unfoldable pub get_permission :
    Option Text → List PermissionRow → ℕ → ℕ → Result QueryError ConnectionPermission
unfolding select_permission
get_permission (some e) table connection_id user_id = err (permission_error e)
get_permission none table connection_id user_id = ok (select_permission table connection_id user_id)

-- INSERT INTO TBL_QUERY_HISTORY, newest last. The user is stored as the creator; the time of
-- creation is the table's default, for which the record's own stands.
unfoldable pub save_history :
    Option Text
    → QueryHistoryRecord
    → List QueryHistoryRecord
    → Result QueryError (List QueryHistoryRecord)
save_history (some e) r history = err (internal e)
save_history none r history = ok (history ++ record r { created_by = r.user_id } ∷ [])
