-- ===== src/Workspace/Repository.antt =====
-- The table of members: crates/app/src/features/workspace/repository.rs. A table is a list of
-- rows, and `fault` is the error of the database for a call, if there is one. The table has no
-- unique index, so an insertion is never refused as a duplicate.
use pairdbase.Common.{
  ℕ, Bool, true, false, not, ◌&&◌, Option, none, some, List, [], ◌∷◌, ◌++◌, Result, ok, err,
  map_err, ◌==◌, find, any_of, is_some, if◌then◌else◌,
}
use pairdbase.Text.{Text, codes, text_eq}
use pairdbase.Workspace.Domain.{
  MemberRole, owner, role_as_str, role_try_from, WorkspaceError, user_not_found, workspace_internal,
  invalid_role,
}

pub record MemberRow : Type 0 where
  pub workspace_id : ℕ
  pub user_id : ℕ
  pub role : Text
  pub created_by : ℕ
  pub updated_at : Option ℕ
  pub is_soft_deleted : Bool
  pub deleted_at : Option ℕ

-- The row is the user's in the workspace, and is not deleted.
unfoldable pub is_live : ℕ → ℕ → MemberRow → Bool
is_live workspace_id user_id r =
    r.workspace_id == workspace_id
    && r.user_id == user_id
    && not r.is_soft_deleted
    && not (is_some r.deleted_at)

-- The text of an error in a stored role.
abbrev role_fault : WorkspaceError → WorkspaceError
role_fault (invalid_role s) = workspace_internal (codes "invalid role: " ++ s)
role_fault e = e

unfoldable pub read_role : Option MemberRow → Result WorkspaceError (Option MemberRole)
unfolding role_try_from
read_role none = ok none
read_role (some r) = elim (map_err role_fault (role_try_from r.role)) [
  | err e ↦ err e
  | ok role ↦ ok (some role)
]

unfoldable pub get_member_role :
    Option Text → List MemberRow → ℕ → ℕ → Result WorkspaceError (Option MemberRole)
unfolding read_role is_live
get_member_role (some e) table workspace_id user_id = err (workspace_internal e)
get_member_role none table workspace_id user_id =
    read_role (find (is_live workspace_id user_id) table)

abbrev pub new_member : ℕ → ℕ → MemberRole → ℕ → MemberRow
new_member workspace_id user_id role invited_by = record {
  workspace_id = workspace_id;
  user_id = user_id;
  role = role_as_str role;
  created_by = invited_by;
  updated_at = none;
  is_soft_deleted = false;
  deleted_at = none;
}

unfoldable pub add_member :
    Option Text → List MemberRow → ℕ → ℕ → MemberRole → ℕ → Result WorkspaceError (List MemberRow)
add_member (some e) table workspace_id user_id role invited_by = err (workspace_internal e)
add_member none table workspace_id user_id role invited_by =
    ok (table ++ new_member workspace_id user_id role invited_by ∷ [])

-- `UPDATE .. SET .. WHERE ..`.
unfoldable pub update_where :
    (MemberRow → Bool) → (MemberRow → MemberRow) → List MemberRow → List MemberRow
update_where p f [] = []
update_where p f (r ∷ rs) = (if p r then f r else r) ∷ update_where p f rs

unfoldable pub with_role : MemberRole → ℕ → MemberRow → MemberRow
unfolding role_as_str
with_role role now r = record r { role = role_as_str role; updated_at = some now }

-- `now` is the database's clock.
unfoldable pub set_member_role :
    Option Text → List MemberRow → ℕ → ℕ → MemberRole → ℕ → Result WorkspaceError (List MemberRow)
unfolding update_where with_role is_live
set_member_role (some e) table workspace_id user_id role now = err (workspace_internal e)
set_member_role none table workspace_id user_id role now =
    if any_of (is_live workspace_id user_id) table
    then ok (update_where (is_live workspace_id user_id) (with_role role now) table)
    else err (user_not_found (codes "workspace member not found"))

-- The row is live and its role is not `owner`.
unfoldable pub is_removable : ℕ → ℕ → MemberRow → Bool
unfolding is_live text_eq role_as_str
is_removable workspace_id user_id r =
    is_live workspace_id user_id r && not (text_eq r.role (role_as_str owner))

unfoldable pub soft_deleted : ℕ → MemberRow → MemberRow
soft_deleted now r = record r { is_soft_deleted = true; deleted_at = some now }

unfoldable pub delete_member :
    Option Text → List MemberRow → ℕ → ℕ → ℕ → Result WorkspaceError (List MemberRow)
unfolding update_where is_removable soft_deleted
delete_member (some e) table workspace_id user_id now = err (workspace_internal e)
delete_member none table workspace_id user_id now =
    if any_of (is_removable workspace_id user_id) table
    then ok (update_where (is_removable workspace_id user_id) (soft_deleted now) table)
    else err (user_not_found (codes "workspace member not found or cannot be removed"))
