-- ===== src/Organization/Rows.antt =====
-- The rows of organizations, members and invitations and what is read from them:
-- crates/app/src/features/organization/domain.rs. An identifier and an instant are numbers.
use pairdbase.Common.{ℕ, Bool, Option, none, some, Result, ok, ◌>>=◌}
use pairdbase.Common.Int.{ℤ}
use pairdbase.Text.{Text}
use pairdbase.Organization.Domain.{
  OrgPlan, OrgRole, OrgError, plan_try_from, org_role_try_from, org_role_as_str,
}

pub record Organization : Type 0 where
  pub id : ℕ
  pub name : Text
  pub slug : Text
  pub plan : OrgPlan
  pub logo_url : Option Text
  pub website : Option Text
  pub sso_enabled : Bool
  pub max_workspaces : ℤ
  pub max_members : ℤ
  pub max_connections : ℤ
  pub ai_credits_limit : ℤ
  pub ai_credits_used : ℤ
  pub trial_ends_at : Option ℕ
  pub created_at : ℕ
  pub updated_at : ℕ

pub record OrganizationRow : Type 0 where
  pub id : ℕ
  pub name : Text
  pub slug : Text
  pub plan : Text
  pub logo_url : Option Text
  pub website : Option Text
  pub sso_enabled : Bool
  pub max_workspaces : ℤ
  pub max_members : ℤ
  pub max_connections : ℤ
  pub ai_credits_limit : ℤ
  pub ai_credits_used : ℤ
  pub trial_ends_at : Option ℕ
  pub created_by : ℕ
  pub created_at : ℕ
  pub updated_by : Option ℕ
  pub updated_at : Option ℕ
  pub is_soft_deleted : Bool
  pub deleted_by : Option ℕ
  pub deleted_at : Option ℕ

-- `Option::unwrap_or_default` of an instant is the epoch.
abbrev or_epoch : Option ℕ → ℕ
or_epoch none = 0
or_epoch (some t) = t

unfoldable pub organization_of : OrganizationRow → Result OrgError Organization
unfolding plan_try_from
organization_of r = do
  plan ← plan_try_from r.plan
  ok (record {
    id = r.id;
    name = r.name;
    slug = r.slug;
    plan = plan;
    logo_url = r.logo_url;
    website = r.website;
    sso_enabled = r.sso_enabled;
    max_workspaces = r.max_workspaces;
    max_members = r.max_members;
    max_connections = r.max_connections;
    ai_credits_limit = r.ai_credits_limit;
    ai_credits_used = r.ai_credits_used;
    trial_ends_at = r.trial_ends_at;
    created_at = r.created_at;
    updated_at = or_epoch r.updated_at;
  })

pub record OrgMemberRow : Type 0 where
  pub id : ℕ
  pub org_id : ℕ
  pub user_id : ℕ
  pub role : Text
  pub joined_at : ℕ
  pub created_by : ℕ
  pub created_at : ℕ
  pub updated_by : Option ℕ
  pub updated_at : Option ℕ
  pub is_soft_deleted : Bool
  pub deleted_by : Option ℕ
  pub deleted_at : Option ℕ

-- A member's row joined with the row of the user.
pub record OrgMemberWithUserView : Type 0 where
  pub id : ℕ
  pub org_id : ℕ
  pub user_id : ℕ
  pub email : Text
  pub display_name : Text
  pub avatar_url : Option Text
  pub role : Text
  pub joined_at : ℕ
  pub created_by : ℕ
  pub created_at : ℕ
  pub updated_by : Option ℕ
  pub updated_at : Option ℕ

pub record OrgMember : Type 0 where
  pub id : ℕ
  pub org_id : ℕ
  pub user_id : ℕ
  pub email : Text
  pub display_name : Text
  pub avatar_url : Option Text
  pub role : OrgRole
  pub joined_at : ℕ
  pub created_by : ℕ
  pub created_at : ℕ
  pub updated_by : Option ℕ
  pub updated_at : Option ℕ

unfoldable pub org_member_of : OrgMemberWithUserView → Result OrgError OrgMember
unfolding org_role_try_from
org_member_of m = do
  role ← org_role_try_from m.role
  ok (record {
    id = m.id;
    org_id = m.org_id;
    user_id = m.user_id;
    email = m.email;
    display_name = m.display_name;
    avatar_url = m.avatar_url;
    role = role;
    joined_at = m.joined_at;
    created_by = m.created_by;
    created_at = m.created_at;
    updated_by = m.updated_by;
    updated_at = m.updated_at;
  })

-- The row that a member is sent as.
unfoldable pub with_user_view_of : OrgMember → OrgMemberWithUserView
unfolding org_role_as_str
with_user_view_of m = record {
  id = m.id;
  org_id = m.org_id;
  user_id = m.user_id;
  email = m.email;
  display_name = m.display_name;
  avatar_url = m.avatar_url;
  role = org_role_as_str m.role;
  joined_at = m.joined_at;
  created_by = m.created_by;
  created_at = m.created_at;
  updated_by = m.updated_by;
  updated_at = m.updated_at;
}

-- A row of the table, which also holds the token and the time of a revocation.
pub record OrgInvitationRow : Type 0 where
  pub id : ℕ
  pub org_id : ℕ
  pub email : Text
  pub role : Text
  pub invited_by : ℕ
  pub token : Text
  pub accepted_at : Option ℕ
  pub accepted_by : Option ℕ
  pub revoked_at : Option ℕ
  pub expires_at : ℕ
  pub created_by : ℕ
  pub created_at : ℕ
  pub updated_by : Option ℕ
  pub updated_at : Option ℕ
  pub is_soft_deleted : Bool
  pub deleted_by : Option ℕ
  pub deleted_at : Option ℕ

pub record OrgInvitation : Type 0 where
  pub id : ℕ
  pub org_id : ℕ
  pub email : Text
  pub role : OrgRole
  pub invited_by : ℕ
  pub expires_at : ℕ
  pub created_at : ℕ
  pub accepted_at : Option ℕ
  pub accepted_by : Option ℕ

unfoldable pub invitation_of : OrgInvitationRow → Result OrgError OrgInvitation
unfolding org_role_try_from
invitation_of r = do
  role ← org_role_try_from r.role
  ok (record {
    id = r.id;
    org_id = r.org_id;
    email = r.email;
    role = role;
    invited_by = r.invited_by;
    expires_at = r.expires_at;
    created_at = r.created_at;
    accepted_at = r.accepted_at;
    accepted_by = r.accepted_by;
  })
