-- ===== src/Organization/Writes.antt =====
-- The changes of the tables that the requests of crates/app/src/features/organization make.
pub mod Members
pub mod Organizations
pub mod Invitations
pub mod Requests
use pairdbase.Common.{
  none, ℕ, ◌≡◌, Bool, true, false, Option, none, some, List, [], ◌∷◌, ◌++◌, find, any_of, ok,
  update_rows, ◌==◌,
}
use pairdbase.Common.Int.{ℤ, pos, in_i32}
use pairdbase.Text.{Text, text_eq}
use pairdbase.Organization.Domain.{
  OrgRole, is_org_owner, is_org_admin, may_manage_members, org_role_as_str,
}
use pairdbase.Organization.Rows.{Organization, OrganizationRow, OrgMemberRow, OrgInvitationRow}
use pairdbase.Organization.Database.{Database, InvitationMail}
use pairdbase.Organization.Repository.Members.{
  is_active, is_indexed, read_org_role, with_org_role, mark_deleted,
}
use pairdbase.Organization.Repository.Organizations.{
  has_id, with_settings, affords, overflows, with_credits,
}
use pairdbase.Organization.Repository.Invitations.{by_token, accepted, is_revocable, revoked}

-- The user's role in the organization, as the tables have it.
pub record HasOrgRole (db : Database) (org_id user_id : ℕ) (role : OrgRole) : Type 0 where
  pub row : OrgMemberRow
  pub found : find (is_active org_id user_id) db.members ≡ some row
  pub read : read_org_role row ≡ ok role

-- The user is an owner or an admin of the organization, and its owner where the other is an admin.
pub record ManagesOrg (db : Database) (org_id user_id : ℕ) (theirs : OrgRole) : Type 0 where
  pub mine : OrgRole
  pub is_member : HasOrgRole db org_id user_id mine
  pub manages : may_manage_members mine ≡ true
  pub above : is_org_admin theirs ≡ true → is_org_owner mine ≡ true

-- A request of the user leaves the tables as they are, or makes one of these changes.
pub data Write (asker : Option ℕ) (db : Database) : Database → Type 0 where
  unchanged : Write asker db db
  role_set :
      (org_id target requester now : ℕ) (new theirs : OrgRole)
      → asker ≡ some requester
      → HasOrgRole db org_id target theirs
      → is_org_owner theirs ≡ false
      → is_org_owner new ≡ false
      → ManagesOrg db org_id requester theirs
      → Write asker db (record db {
        members = update_rows (is_active org_id target) (with_org_role new now) db.members;
      })
  member_removed :
      (org_id target requester now : ℕ) (theirs : OrgRole)
      → asker ≡ some requester
      → HasOrgRole db org_id target theirs
      → is_org_owner theirs ≡ false
      → ((target == requester) ≡ false → ManagesOrg db org_id requester theirs)
      → Write asker db (record db {
        members = update_rows (is_active org_id target) (mark_deleted now) db.members;
      })
  organization_added :
      (row : OrganizationRow)
      → any_of (has_id row.id) db.organizations ≡ false
      → row.ai_credits_used ≡ pos 0
      → row.ai_credits_limit ≡ pos 50
      → Write asker db (record db { organizations = db.organizations ++ row ∷ [] })
  settings_changed :
      (old : OrganizationRow) (new : Organization)
      → find (has_id new.id) db.organizations ≡ some old
      → new.ai_credits_used ≡ old.ai_credits_used
      → new.ai_credits_limit ≡ old.ai_credits_limit
      → Write asker db (record db {
        organizations = update_rows (has_id new.id) (with_settings new) db.organizations;
      })
  credits_used :
      (org_id : ℕ) (amount : ℤ) (now : ℕ)
      → any_of (overflows org_id amount) db.organizations ≡ false
      → Write asker db (record db {
        organizations =
            update_rows (affords org_id amount) (with_credits amount now) db.organizations;
      })
  invitation_accepted :
      (token : Text) (invitation : OrgInvitationRow) (member : OrgMemberRow) (now : ℕ)
      → find (by_token token now) db.invitations ≡ some invitation
      → any_of (is_indexed member.org_id member.user_id) db.members ≡ false
      → member.org_id ≡ invitation.org_id
      → member.role ≡ invitation.role
      → member.is_soft_deleted ≡ false
      → member.deleted_at ≡ none
      → Write asker db (record db {
        members = db.members ++ member ∷ [];
        invitations =
            update_rows (λ r. r.id == invitation.id) (accepted now member.user_id) db.invitations;
      })
  invitation_revoked :
      (id now : ℕ)
      → Write asker db
          (record db { invitations = update_rows (is_revocable id) (revoked now) db.invitations })
