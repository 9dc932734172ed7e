-- ===== src/Organization/Examples.antt =====
-- Organizations at concrete inputs.
use pairdbase.Common.{
  ℕ, ◌+◌, ◌≡◌, refl, true, false, not, ◌&&◌, inr, none, some, List, [], ◌∷◌, map, if◌then◌else◌,
  Every,
}
use pairdbase.Common.Int.{pos}
use pairdbase.Text.{Text, codes, ascii, ascii_lower, is_ascii_alphanumeric, join}
use pairdbase.Organization.Domain.{
  org_role_as_str, org_role_try_from, org_owner, org_member, is_org_owner, is_org_admin,
  may_manage_members,
}
use pairdbase.Organization.Rows.{OrganizationRow, OrgMemberRow, OrgInvitationRow}
use pairdbase.Organization.Database.{Database, Environment}
use pairdbase.Organization.Requests.{
  asker, Request, after, changes_role, removes, accepts, consumes,
}
use pairdbase.Organization.Repository.Members.{is_active, read_org_role}
use pairdbase.Organization.UseCases.{
  CreateOrgRequest, UpdateOrgRequest, create_organization, update_settings, get_usage,
}
use pairdbase.Organization.UseCases.Members.{remove_org_member}
use pairdbase.Organization.UseCases.Invitations.{invite_member, accept_invitation}
use pairdbase.Organization.Writes.{HasOrgRole}
use pairdbase.Organization.Roles.{RoleStep, roles_of, after_all}
use pairdbase.Organization.Roles.Refinement.{after-RoleStep, after_all-IsOrgOwner, IsOrgOwner}
use pairdbase.Organization.Invitations.{InvitationSteps, after-InvitationSteps}
use pairdbase.Organization.Credits.{IsWithin, after-IsWithin}
use pairdbase.Organization.Answers.{
  is_error, lacks, RejectsMissing, not_null-is_error, missing_columns-is_error,
}
use pairdbase.Organization.Slug.{IsSlug}
use pairdbase.Organization.Removal.{IsTakenOut, remove_org_member-answer}

-- A database without faults, and one whose driver reads no row that lacks a column.
abbrev healthy : Environment
healthy = record {
  fault = λ i. none;
  clock = λ i. 100 + i;
  fresh = λ i. 900 + i;
  decode = λ columns fields. none;
  lower = map ascii_lower;
  violation = λ name. name;
  token = codes "f00d";
  unicode = ascii;
}

abbrev strict : Environment
strict = record healthy {
  decode = λ columns fields. if lacks columns fields then some (codes "no column found") else none;
}

abbrev member_row : ℕ → ℕ → Text → OrgMemberRow
member_row id user role = record {
  id = id;
  org_id = 1;
  user_id = user;
  role = role;
  joined_at = id;
  created_by = 10;
  created_at = id;
  updated_by = none;
  updated_at = none;
  is_soft_deleted = false;
  deleted_by = none;
  deleted_at = none;
}

abbrev acme : OrganizationRow
acme = record {
  id = 1;
  name = codes "Acme";
  slug = codes "acme";
  plan = codes "free";
  logo_url = none;
  website = none;
  sso_enabled = false;
  max_workspaces = pos 3;
  max_members = pos 5;
  max_connections = pos 10;
  ai_credits_limit = pos 50;
  ai_credits_used = pos 45;
  trial_ends_at = none;
  created_by = 10;
  created_at = 1;
  updated_by = none;
  updated_at = none;
  is_soft_deleted = false;
  deleted_by = none;
  deleted_at = none;
}

abbrev invited : OrgInvitationRow
invited = record {
  id = 70;
  org_id = 1;
  email = codes "eve@acme.io";
  role = codes "member";
  invited_by = 10;
  token = codes "beef";
  accepted_at = none;
  accepted_by = none;
  revoked_at = none;
  expires_at = 5000;
  created_by = 10;
  created_at = 50;
  updated_by = none;
  updated_at = none;
  is_soft_deleted = false;
  deleted_by = none;
  deleted_at = none;
}

abbrev tables : Database
tables = record {
  organizations = acme ∷ [];
  members =
      member_row 20 10 (codes "owner")
      ∷ member_row 21 11 (codes "admin")
      ∷ member_row 22 12 (codes "member")
      ∷ [];
  invitations = invited ∷ [];
  users = [];
  workspaces = [];
  connections = [];
  outbox = [];
}

after-RoleStep_example :
    RoleStep
      (asker (changes_role 1 12 (codes "admin") 10))
      (roles_of tables.members)
      (roles_of (after healthy (changes_role 1 12 (codes "admin") 10) tables).members)
after-RoleStep_example =
    after-RoleStep healthy (changes_role 1 12 (codes "admin") 10) tables (refl, (refl, (refl, tt)))

-- An admin cannot take the owner out, the owner takes the admin out, and a guest joins.
abbrev story : List (Environment × Request)
story =
    (healthy, removes 1 10 11)
    ∷ (healthy, removes 1 11 10)
    ∷ (healthy, accepts (codes "beef") 13)
    ∷ []

owner_there : IsOrgOwner (roles_of tables.members) 1 10
unfolding roles_of org_role_as_str
owner_there = refl

after_all-IsOrgOwner_example : IsOrgOwner (roles_of (after_all story tables).members) 1 10
after_all-IsOrgOwner_example =
    after_all-IsOrgOwner story tables 1 10 (refl, (refl, (refl, tt))) owner_there

after-InvitationSteps_example :
    InvitationSteps tables.invitations
      (after healthy (accepts (codes "beef") 13) tables).invitations
after-InvitationSteps_example =
    after-InvitationSteps healthy (accepts (codes "beef") 13) tables (tt, tt)

after-IsWithin_example : Every IsWithin (after healthy (consumes 1 (pos 5)) tables).organizations
after-IsWithin_example = after-IsWithin healthy (consumes 1 (pos 5)) tables (refl, tt)

abbrev new_org : CreateOrgRequest
new_org = record { name = codes "Beta Labs"; slug = none; website = none }

not_null-is_error_example :
    (is_error (create_organization healthy new_org 30 tables).1 ≡ true)
    × (is_error (invite_member healthy 1 (codes "x@y.org") (codes "member") 30 tables).1 ≡ true)
not_null-is_error_example =
    not_null-is_error healthy new_org 1 (codes "x@y.org") (codes "member") 30 tables

abbrev renamed : UpdateOrgRequest
renamed = record { name = some (codes "Acme Ltd"); logo_url = none; website = none }

strict_rejects : RejectsMissing strict
strict_rejects columns fields h = rw h refl

missing_columns-is_error_example :
    (is_error (update_settings strict 1 renamed 10 tables).1 ≡ true)
    × (is_error (get_usage strict 1 10 tables).1 ≡ true)
    × (is_error (accept_invitation strict (codes "beef") 10 tables).1 ≡ true)
missing_columns-is_error_example =
    missing_columns-is_error strict strict_rejects 1 renamed (codes "beef") 10 tables

beta_labs : IsSlug ascii (codes "beta-labs")
unfolding ascii is_ascii_alphanumeric join
beta_labs = record {
  words = codes "beta" ∷ codes "labs" ∷ [];
  joined = refl;
  are_words = (
    (refl, (refl, (refl, (refl, (refl, tt))))),
    ((refl, (refl, (refl, (refl, (refl, tt))))), tt),
  );
}

lower_case : ascii.to_lowercase (codes "beta-labs") ≡ codes "beta-labs"
unfolding ascii ascii_lower
lower_case = refl

owner_role : HasOrgRole tables 1 10 org_owner
unfolding is_active read_org_role org_role_try_from
owner_role = record { row = member_row 20 10 (codes "owner"); found = refl; read = refl }

member_role : HasOrgRole tables 1 12 org_member
unfolding is_active read_org_role org_role_try_from
member_role = record { row = member_row 22 12 (codes "member"); found = refl; read = refl }

no_owner : is_org_owner org_member ≡ false
unfolding is_org_owner
no_owner = refl

above_member :
    (may_manage_members org_owner ≡ true)
    × ((is_org_admin org_member && not (is_org_owner org_owner)) ≡ false)
unfolding may_manage_members is_org_admin is_org_owner
above_member = (refl, refl)

remove_org_member-answer_example :
    IsTakenOut healthy (λ i. refl) 1 tables 12 102 (remove_org_member healthy 1 12 10 tables)
remove_org_member-answer_example =
    remove_org_member-answer healthy (λ i. refl) 1 tables 12 10 org_member org_owner member_role
      owner_role no_owner (inr above_member)
