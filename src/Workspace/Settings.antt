-- ===== src/Workspace/Settings.antt =====
-- Workspaces themselves: get, create, update and delete of
-- crates/app/src/features/workspace/use_case.rs over find_by_id, create, update, soft_delete and
-- member_count of repository.rs. A call of the database, or of the clock, has a number, in the
-- order of the code.
pub mod Lifecycle
use pairdbase.Common.{
  ℕ, Bool, true, false, not, ◌&&◌, Option, none, some, List, [], ◌∷◌, ◌++◌, Result, ok, err, length,
  keep, ◌==◌, find, any_of, is_some, ok_or, update_rows,
}
use pairdbase.Common.Actions.{
  Action, ◌>>=◌, ◌>>◌, return, raise, lift, get_state, put_state, require, may_fail, match_option,
}
use pairdbase.Text.{Text}
use pairdbase.Workspace.Domain.{
  MemberRole, owner, role_as_str, is_owner, can_manage_members, WorkspaceError, workspace_not_found,
  name_taken, forbidden, workspace_internal,
}
use pairdbase.Workspace.Repository.{MemberRow, add_member}
use pairdbase.Workspace.Members.{Faults, require_member}

-- `Workspace` has the same fields.
pub record WorkspaceRow : Type 0 where
  pub id : ℕ
  pub organization_id : ℕ
  pub name : Text
  pub description : Option Text
  pub color : Option Text
  pub created_by : ℕ
  pub created_at : ℕ
  pub updated_by : Option ℕ
  pub updated_at : Option ℕ
  pub is_soft_deleted : Bool
  pub deleted_by : Option ℕ
  pub deleted_at : Option ℕ

pub record WorkspaceView : Type 0 where
  pub id : ℕ
  pub organization_id : ℕ
  pub name : Text
  pub description : Option Text
  pub color : Option Text
  pub member_count : ℕ
  pub user_role : Text
  pub created_by : ℕ
  pub created_at : ℕ
  pub updated_by : Option ℕ
  pub updated_at : Option ℕ

pub record Tables : Type 0 where
  pub workspaces : List WorkspaceRow
  pub members : List MemberRow

pub record Circumstances : Type 0 where
  pub fault : Faults
  pub clock : ℕ → ℕ
  pub new_id : ℕ

abbrev pub Step {ℓ} : Type ℓ → Type ℓ
Step A = Action Tables WorkspaceError A

abbrev pub internal_error : Option Text → Option WorkspaceError
internal_error none = none
internal_error (some e) = some (workspace_internal e)

abbrev pub query : Circumstances → ℕ → Step (Unit {0})
query c i = may_fail (internal_error (c.fault i))

-- The workspace of the id, not deleted.
unfoldable pub is_present : ℕ → WorkspaceRow → Bool
is_present id r = r.id == id && not r.is_soft_deleted && not (is_some r.deleted_at)

unfoldable pub find_workspace : Circumstances → ℕ → ℕ → Step (Option WorkspaceRow)
unfolding is_present
find_workspace c i id = do query c i; t ← get_state; return (find (is_present id) t.workspaces)

unfoldable pub insert_workspace : Circumstances → ℕ → WorkspaceRow → Step WorkspaceRow
insert_workspace c i w = do
  query c i
  t ← get_state
  require (not (any_of (λ r. r.id == w.id) t.workspaces)) name_taken
  let row = record w { is_soft_deleted = false; deleted_by = none; deleted_at = none }
  put_state (record t { workspaces = t.workspaces ++ row ∷ [] })
  return row

unfoldable pub with_workspace : WorkspaceRow → WorkspaceRow → WorkspaceRow
with_workspace w r = record r {
  name = w.name;
  description = w.description;
  color = w.color;
  updated_by = w.updated_by;
  updated_at = w.updated_at;
}

unfoldable pub save_workspace : Circumstances → ℕ → WorkspaceRow → Step WorkspaceRow
unfolding is_present with_workspace match_option
save_workspace c i w = do
  query c i
  t ← get_state
  let after = update_rows (is_present w.id) (with_workspace w) t.workspaces
  put_state (record t { workspaces = after })
  match_option (find (is_present w.id) after) (raise workspace_not_found) return

unfoldable pub mark_workspace : ℕ → WorkspaceRow → WorkspaceRow
mark_workspace now r = record r { is_soft_deleted = true; deleted_at = some now }

unfoldable pub soft_delete : Circumstances → ℕ → ℕ → Step (Unit {0})
unfolding is_present mark_workspace
soft_delete c i id = do
  query c i
  t ← get_state
  put_state (record t {
    workspaces = update_rows (is_present id) (mark_workspace (c.clock i)) t.workspaces;
  })
  require (any_of (is_present id) t.workspaces) workspace_not_found

unfoldable pub count_members : Circumstances → ℕ → ℕ → Step ℕ
count_members c i id = do
  query c i
  t ← get_state
  return (
      length (
        keep (λ m. m.workspace_id == id && not m.is_soft_deleted && not (is_some m.deleted_at))
          t.members))

unfoldable pub role_in : Circumstances → ℕ → ℕ → ℕ → Step MemberRole
unfolding require_member
role_in c i workspace_id user_id = do
  t ← get_state
  lift (require_member (c.fault i) t.members workspace_id user_id)

abbrev pub workspace_view : WorkspaceRow → ℕ → MemberRole → WorkspaceView
workspace_view w count role = record {
  id = w.id;
  organization_id = w.organization_id;
  name = w.name;
  description = w.description;
  color = w.color;
  member_count = count;
  user_role = role_as_str role;
  created_by = w.created_by;
  created_at = w.created_at;
  updated_by = w.updated_by;
  updated_at = w.updated_at;
}

unfoldable pub get_workspace : Circumstances → ℕ → ℕ → Step WorkspaceView
unfolding role_in find_workspace count_members role_as_str
get_workspace c workspace_id user_id = do
  role ← role_in c 0 workspace_id user_id
  found ← find_workspace c 1 workspace_id
  workspace ← lift (ok_or found workspace_not_found)
  count ← count_members c 2 workspace_id
  return (workspace_view workspace count role)

pub record CreateWorkspaceRequest : Type 0 where
  pub name : Text
  pub description : Option Text
  pub color : Option Text

abbrev pub new_workspace : Circumstances → CreateWorkspaceRequest → ℕ → ℕ → WorkspaceRow
new_workspace c req user_id org_id = record {
  id = c.new_id;
  organization_id = org_id;
  name = req.name;
  description = req.description;
  color = req.color;
  created_by = user_id;
  created_at = c.clock 0;
  updated_by = none;
  updated_at = some (c.clock 1);
  is_soft_deleted = false;
  deleted_by = none;
  deleted_at = none;
}

-- `add_member` of the repository as a step.
unfoldable pub join_workspace : Circumstances → ℕ → ℕ → ℕ → MemberRole → ℕ → Step (Unit {0})
unfolding add_member
join_workspace c i workspace_id user_id role invited_by = do
  t ← get_state
  members ← lift (add_member (c.fault i) t.members workspace_id user_id role invited_by)
  put_state (record t { members = members })

unfoldable pub create_workspace :
    Circumstances → CreateWorkspaceRequest → ℕ → ℕ → Step WorkspaceView
unfolding insert_workspace join_workspace role_as_str
create_workspace c req user_id org_id = do
  saved ← insert_workspace c 2 (new_workspace c req user_id org_id)
  join_workspace c 3 saved.id user_id owner user_id
  return (workspace_view saved 1 owner)

pub record UpdateWorkspaceRequest : Type 0 where
  pub name : Option Text
  pub description : Option Text
  pub color : Option Text

abbrev or_this {ℓ} : {A : Type ℓ} → Option A → A → A
or_this none b = b
or_this (some a) b = a

abbrev or_that {ℓ} : {A : Type ℓ} → Option A → Option A → Option A
or_that none b = b
or_that (some a) b = some a

abbrev requested : UpdateWorkspaceRequest → ℕ → WorkspaceRow → WorkspaceRow
requested req now w = record w {
  name = or_this req.name w.name;
  description = or_that req.description w.description;
  color = or_that req.color w.color;
  updated_at = some now;
}

-- The answer names the role of the user `owner`, whatever it is.
unfoldable pub update_workspace :
    Circumstances → ℕ → UpdateWorkspaceRequest → ℕ → Step WorkspaceView
unfolding role_in can_manage_members find_workspace save_workspace count_members role_as_str
update_workspace c workspace_id req user_id = do
  role ← role_in c 0 workspace_id user_id
  require (can_manage_members role) forbidden
  found ← find_workspace c 1 workspace_id
  existing ← lift (ok_or found workspace_not_found)
  saved ← save_workspace c 3 (requested req (c.clock 2) existing)
  count ← count_members c 4 workspace_id
  return (workspace_view saved count owner)

unfoldable pub delete_workspace : Circumstances → ℕ → ℕ → Step (Unit {0})
unfolding role_in is_owner soft_delete
delete_workspace c workspace_id user_id = do
  role ← role_in c 0 workspace_id user_id
  require (is_owner role) forbidden
  soft_delete c 1 workspace_id
