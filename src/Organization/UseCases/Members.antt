-- ===== src/Organization/UseCases/Members.antt =====
-- update_member_role and remove_member of crates/app/src/features/organization/use_case.rs.
use pairdbase.Common.{ok_or, ℕ, not, ◌&&◌, ◌==◌, find}
use pairdbase.Common.Actions.{◌>>=◌, ◌>>◌, require, lift, return}
use pairdbase.Text.{Text, codes}
use pairdbase.Organization.Domain.{
  OrgRole, is_org_owner, is_org_admin, may_manage_members, org_role_try_from, org_forbidden,
  org_not_found, cannot_remove_org_owner, org_internal,
}
use pairdbase.Organization.Rows.{OrgMember}
use pairdbase.Organization.Database.{Environment, Run}
use pairdbase.Organization.Repository.Members.{
  get_org_member_role, list_org_members, set_org_member_role, delete_org_member,
}
use pairdbase.Organization.UseCases.{require_org_member}

-- The role of the target, who must be a member.
unfoldable pub org_target_role : Environment → ℕ → ℕ → ℕ → Run OrgRole
unfolding get_org_member_role
org_target_role w i org_id target = do
  role ← get_org_member_role w i org_id target
  lift (ok_or role org_not_found)

-- The checks of `update_member_role`, which end in the new role.
unfoldable pub role_checks : Environment → ℕ → ℕ → Text → ℕ → Run OrgRole
unfolding require_org_member org_target_role may_manage_members org_role_try_from is_org_owner
    is_org_admin
role_checks w org_id target role requester = do
  mine ← require_org_member w 0 org_id requester
  require (may_manage_members mine) org_forbidden
  new ← lift (org_role_try_from role)
  require (not (is_org_owner new)) org_forbidden
  theirs ← org_target_role w 1 org_id target
  require (not (is_org_owner theirs)) cannot_remove_org_owner
  require (not (is_org_admin theirs && not (is_org_owner mine))) org_forbidden
  return new

unfoldable pub update_member_role : Environment → ℕ → ℕ → Text → ℕ → Run OrgMember
unfolding role_checks set_org_member_role list_org_members
update_member_role w org_id target role requester = do
  new ← role_checks w org_id target role requester
  set_org_member_role w 2 org_id target new
  members ← list_org_members w 3 org_id
  lift (
      ok_or (find (λ m. m.user_id == target) members)
        (org_internal (codes "member not found after update")))

-- The checks of `remove_member`.
unfoldable pub removal_checks : Environment → ℕ → ℕ → ℕ → Run (Unit {0})
unfolding require_org_member org_target_role may_manage_members is_org_owner is_org_admin
removal_checks w org_id target requester = do
  mine ← require_org_member w 0 org_id requester
  let is_self = target == requester
  require (not (not is_self && not (may_manage_members mine))) org_forbidden
  theirs ← org_target_role w 1 org_id target
  require (not (is_org_owner theirs)) cannot_remove_org_owner
  require (not (is_org_admin theirs && not (is_org_owner mine) && not is_self)) org_forbidden

unfoldable pub remove_org_member : Environment → ℕ → ℕ → ℕ → Run (Unit {0})
unfolding removal_checks delete_org_member
remove_org_member w org_id target requester = do
  removal_checks w org_id target requester
  delete_org_member w 2 org_id target
