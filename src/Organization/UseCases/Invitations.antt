-- ===== src/Organization/UseCases/Invitations.antt =====
-- invite_member, revoke_invitation and accept_invitation of
-- crates/app/src/features/organization/use_case.rs. The transaction of `invite_member` holds the
-- event for the outbox alone: the invitation is written outside of it.
use pairdbase.Common.{◌+◌, ok_or, ℕ, not, ◌&&◌, ltb, is_some, [], ◌∷◌, ◌++◌}
use pairdbase.Common.Int.{ltb_ℤ, pos}
use pairdbase.Common.Actions.{◌>>=◌, ◌>>◌, require, lift, return, get_state, put_state}
use pairdbase.Text.{Text, codes, decimal_ℤ}
use pairdbase.Organization.Domain.{
  OrgRole, is_org_owner, is_org_admin, may_manage_members, org_role_try_from, org_role_as_str,
  org_forbidden, org_already_member, invitation_not_found, invitation_already_accepted,
  plan_limit_reached,
}
use pairdbase.Organization.Rows.{Organization, OrgInvitation}
use pairdbase.Organization.Database.{Environment, Run, call, InvitationMail}
use pairdbase.Organization.Repository.Members.{get_org_member_role, find_org_member}
use pairdbase.Organization.Repository.Organizations.{get_org_usage}
use pairdbase.Organization.Repository.Invitations.{
  create_invitation, find_invitation_by_token, accept_row, revoke_row,
}
use pairdbase.Organization.UseCases.{require_org_member, known_organization}

-- The checks of `invite_member`, which end in the role.
unfoldable pub invitation_checks : Environment → ℕ → Text → ℕ → Run OrgRole
unfolding require_org_member may_manage_members org_role_try_from is_org_owner is_org_admin
    get_org_usage decimal_ℤ
invitation_checks w org_id role requester = do
  mine ← require_org_member w 0 org_id requester
  require (may_manage_members mine) org_forbidden
  new ← lift (org_role_try_from role)
  require (not (is_org_owner new)) org_forbidden
  require (not (is_org_admin new && not (is_org_owner mine))) org_forbidden
  usage ← get_org_usage w 1 org_id
  require (ltb_ℤ (pos usage.member_count) usage.max_members) (
      plan_limit_reached (
        codes "Member limit of "
        ++ decimal_ℤ usage.max_members
        ++ codes " reached. Upgrade your plan to add more members."))
  return new

-- The event of the transaction, which the commit writes.
unfoldable pub publish_invitation : Environment → ℕ → InvitationMail → Run (Unit {0})
publish_invitation w i event = do
  call w i
  call w (i + 1)
  db ← get_state
  put_state (record db { outbox = db.outbox ++ event ∷ [] })

unfoldable pub invite_member : Environment → ℕ → Text → Text → ℕ → Run OrgInvitation
unfolding invitation_checks create_invitation find_org_member known_organization org_role_as_str
    publish_invitation
invite_member w org_id email role requester = do
  new ← invitation_checks w org_id role requester
  call w 5
  invitation ← create_invitation w 6 org_id email new requester w.token
  inviter ← find_org_member w 7 org_id requester
  org ← known_organization w 8 org_id
  publish_invitation w 9 (record {
    to = email;
    inviter_name = inviter.display_name;
    org_name = org.name;
    role = org_role_as_str invitation.role;
    token = w.token;
  })
  return invitation

unfoldable pub revoke_invitation : Environment → ℕ → ℕ → ℕ → Run (Unit {0})
unfolding require_org_member may_manage_members revoke_row
revoke_invitation w org_id invitation_id user_id = do
  role ← require_org_member w 0 org_id user_id
  require (may_manage_members role) org_forbidden
  revoke_row w 1 invitation_id

unfoldable pub accept_invitation : Environment → Text → ℕ → Run Organization
unfolding find_invitation_by_token get_org_member_role accept_row known_organization
accept_invitation w token user_id = do
  found ← find_invitation_by_token w 0 token
  invitation ← lift (ok_or found invitation_not_found)
  require (not (is_some invitation.accepted_at)) invitation_already_accepted
  require (not (ltb invitation.expires_at (w.clock 1))) invitation_not_found
  role ← get_org_member_role w 2 invitation.org_id user_id
  require (not (is_some role)) org_already_member
  accept_row w 3 token user_id
  known_organization w 8 invitation.org_id
