-- ===== src/Organization/Roles.antt =====
-- What the table of members means: which role a user has in an organization, and how a request of
-- crates/app/src/features/organization/use_case.rs may change it.
pub mod Table
pub mod Refinement
use pairdbase.Common.{
  ℕ, ◌≡◌, Bool, false, true, not, ◌&&◌, Option, none, some, List, [], ◌∷◌, find, ◌==◌,
  if◌then◌else◌, is_some, Every,
}
use pairdbase.Text.{Text}
use pairdbase.Organization.Domain.{
  OrgRole, org_role_as_str, is_org_owner, is_org_admin, may_manage_members,
}
use pairdbase.Organization.Rows.{OrgMemberRow}
use pairdbase.Organization.Database.{Database, Environment}
use pairdbase.Organization.Repository.Members.{is_active}
use pairdbase.Organization.Requests.{Request, after}

-- The role, as it is stored, of a user in an organization.
abbrev pub Roles : Type 0
Roles = ℕ → ℕ → Option Text

abbrev pub role_of : Option OrgMemberRow → Option Text
role_of none = none
role_of (some r) = some r.role

unfoldable pub roles_of : List OrgMemberRow → Roles
unfolding is_active
roles_of rows org_id user_id = role_of (find (is_active org_id user_id) rows)

-- The table with another entry for a user in an organization.
unfoldable pub assign : Roles → ℕ → ℕ → Option Text → Roles
assign roles org_id user_id role o u = if o == org_id && u == user_id then role else roles o u

-- The user is an owner or an admin of the organization, and its owner where the other is an admin.
pub record MayManage (roles : Roles) (org_id user_id : ℕ) (theirs : OrgRole) : Type 0 where
  pub mine : OrgRole
  pub has : roles org_id user_id ≡ some (org_role_as_str mine)
  pub manages : may_manage_members mine ≡ true
  pub above : is_org_admin theirs ≡ true → is_org_owner mine ≡ true

-- Two tables with the same entries.
abbrev pub Same : Roles → Roles → Type 0
Same a b = (o u : ℕ) → a o u ≡ b o u

-- What the request of a user may do to the roles: nothing; give another role than owner to a member who is not
-- the owner, by one who may manage them; take a member out who is not the owner, by themself or by
-- one who may manage them; or take one in who is no member.
pub data RoleStep (asker : Option ℕ) (before after : Roles) : Type 0 where
  stays : Same after before → RoleStep asker before after
  changed :
      (org_id target requester : ℕ) (new theirs : OrgRole)
      → asker ≡ some requester
      → before org_id target ≡ some (org_role_as_str theirs)
      → is_org_owner theirs ≡ false
      → is_org_owner new ≡ false
      → MayManage before org_id requester theirs
      → Same after (assign before org_id target (some (org_role_as_str new)))
      → RoleStep asker before after
  removed :
      (org_id target requester : ℕ) (theirs : OrgRole)
      → asker ≡ some requester
      → before org_id target ≡ some (org_role_as_str theirs)
      → is_org_owner theirs ≡ false
      → ((target == requester) ≡ false → MayManage before org_id requester theirs)
      → Same after (assign before org_id target none)
      → RoleStep asker before after
  joined :
      (org_id user_id : ℕ) (role : Text)
      → before org_id user_id ≡ none
      → Same after (assign before org_id user_id (some role))
      → RoleStep asker before after

-- A row that is not deleted has no time of deletion.
abbrev pub IsMarked : OrgMemberRow → Type 0
IsMarked r = (not r.is_soft_deleted && is_some r.deleted_at) ≡ false

abbrev pub IsConsistent : Database → Type 0
IsConsistent db = Every IsMarked db.members

-- Requests, each in an environment of its own.
unfoldable pub after_all : List (Environment × Request) → Database → Database
unfolding after
after_all [] db = db
after_all ((w, r) ∷ more) db = after_all more (after w r db)
