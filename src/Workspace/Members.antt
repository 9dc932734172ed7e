-- ===== src/Workspace/Members.antt =====
-- Who may change the members of a workspace: the checks and changes of update_member_role,
-- remove_member and invite_member in crates/app/src/features/workspace/use_case.rs. The argument
-- `fault` gives, for each call of the database in the order of the code, its error if it has one.
pub mod Table
pub mod Ownership
pub mod Authority
use pairdbase.Common.{
  ℕ, Bool, true, false, not, ◌&&◌, Option, none, some, List, [], ◌∷◌, Result, ok, err, ◌>>=◌, ◌>>◌,
  map_err, ok_or, ◌==◌, find, keep,
}
use pairdbase.Text.{Text, codes}
use pairdbase.Workspace.Domain.{
  MemberRole, is_owner, is_admin, can_manage_members, role_try_from, WorkspaceError,
  workspace_not_found, forbidden, already_member, cannot_remove_owner, user_not_found,
  workspace_internal,
}
use pairdbase.Workspace.Repository.{
  MemberRow, get_member_role, add_member, set_member_role, delete_member,
}

-- An early return of an error unless the test holds.
abbrev pub ensure : Bool → WorkspaceError → Result WorkspaceError (Unit {0})
ensure true e = ok tt
ensure false e = err e

abbrev pub Faults : Type 0
Faults = ℕ → Option Text

unfoldable pub require_member :
    Option Text → List MemberRow → ℕ → ℕ → Result WorkspaceError MemberRole
unfolding get_member_role
require_member fault table workspace_id user_id = do
  found ← get_member_role fault table workspace_id user_id
  ok_or found forbidden

-- The role of the target, who must be a member.
unfoldable pub target_role : Option Text → List MemberRow → ℕ → ℕ → Result WorkspaceError MemberRole
unfolding get_member_role
target_role fault table workspace_id user_id = do
  found ← get_member_role fault table workspace_id user_id
  ok_or found workspace_not_found

-- The checks of `update_member_role`, which end in the new role.
unfoldable pub update_checks :
    Faults → List MemberRow → ℕ → ℕ → Text → ℕ → Result WorkspaceError MemberRole
unfolding require_member target_role can_manage_members role_try_from is_owner is_admin
update_checks fault table workspace_id target role requester = do
  mine ← require_member (fault 0) table workspace_id requester
  ensure (can_manage_members mine) forbidden
  new_role ← role_try_from role
  ensure (not (is_owner new_role)) forbidden
  theirs ← target_role (fault 1) table workspace_id target
  ensure (not (is_owner theirs)) cannot_remove_owner
  ensure (not (is_admin theirs && not (is_owner mine))) forbidden
  ok new_role

-- The checks of `remove_member`.
unfoldable pub remove_checks :
    Faults → List MemberRow → ℕ → ℕ → ℕ → Result WorkspaceError (Unit {0})
unfolding require_member target_role can_manage_members is_owner is_admin
remove_checks fault table workspace_id target requester = do
  mine ← require_member (fault 0) table workspace_id requester
  let is_self = target == requester
  ensure (not (not is_self && not (can_manage_members mine))) forbidden
  theirs ← target_role (fault 1) table workspace_id target
  ensure (not (is_owner theirs)) cannot_remove_owner
  ensure (not (is_admin theirs && not (is_owner mine) && not is_self)) forbidden

abbrev pub not_member : Option MemberRole → Bool
not_member none = true
not_member (some role) = false

-- The checks of `invite_member`, which end in the role and the user; `found` is what
-- `find_user_by_email` answers.
unfoldable pub invite_checks :
    Faults
    → List MemberRow
    → ℕ
    → Text
    → Text
    → ℕ
    → Result WorkspaceError (Option ℕ)
    → Result WorkspaceError (MemberRole × ℕ)
unfolding require_member can_manage_members role_try_from is_owner is_admin get_member_role
invite_checks fault table workspace_id email role requester found = do
  mine ← require_member (fault 0) table workspace_id requester
  ensure (can_manage_members mine) forbidden
  new_role ← role_try_from role
  ensure (not (is_owner new_role)) forbidden
  ensure (not (is_admin new_role && not (is_owner mine))) forbidden
  user ← found
  invitee ← ok_or user (user_not_found email)
  present ← get_member_role (fault 1) table workspace_id invitee
  ensure (not_member present) already_member
  ok (new_role, invitee)

-- `invite_member` up to the insertion of the member; what follows does not change the table.
unfoldable pub admit_member :
    Faults
    → List MemberRow
    → ℕ
    → Text
    → Text
    → ℕ
    → Result WorkspaceError (Option ℕ)
    → Result WorkspaceError (List MemberRow)
unfolding invite_checks add_member
admit_member fault table workspace_id email role requester found = do
  checked ← invite_checks fault table workspace_id email role requester found
  add_member (fault 2) table workspace_id checked.1 checked.0 requester

unfoldable pub remove_member :
    Faults → List MemberRow → ℕ → ℕ → ℕ → ℕ → Result WorkspaceError (List MemberRow)
unfolding remove_checks delete_member
remove_member fault table workspace_id target requester now = do
  remove_checks fault table workspace_id target requester
  delete_member (fault 2) table workspace_id target now

-- `update_member_role` up to the change of the role.
unfoldable pub change_role :
    Faults → List MemberRow → ℕ → ℕ → Text → ℕ → ℕ → Result WorkspaceError (List MemberRow)
unfolding update_checks set_member_role
change_role fault table workspace_id target role requester now = do
  new_role ← update_checks fault table workspace_id target role requester
  set_member_role (fault 2) table workspace_id target new_role now
