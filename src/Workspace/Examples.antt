-- ===== src/Workspace/Examples.antt =====
-- The theorems about workspaces at a workspace with an owner and a member.
use pairdbase.Common.{ℕ, ◌+◌, ◌≡◌, refl, false, none, some, List, [], ◌∷◌, ok, err}
use pairdbase.Text.{codes}
use pairdbase.Workspace.Domain.{
  MemberRole, is_owner, owner, viewer, member, admin, role_as_str, role_try_from,
}
use pairdbase.Workspace.Repository.{
  MemberRow, is_live, read_role, new_member, get_member_role, with_role, soft_deleted,
  set_member_role, delete_member, add_member,
}
use pairdbase.Workspace.Members.{Faults, require_member, change_role, remove_member, admit_member}
use pairdbase.Workspace.Members.Authority.{
  HasRole, IsChange, change_role-IsChange, IsRemoval, remove_member-IsRemoval, IsAdmission,
  admit_member-IsAdmission,
}
use pairdbase.Common.Actions.{◌>>=◌}
use pairdbase.Email.Types.{provider_error}
use pairdbase.Email.Service.{Mailer}
use pairdbase.Outbox.Events.{OutboxEvent, email_workspace_invitation, dispatch_event}
use pairdbase.Workspace.Announcement.{
  NamedOrganization, WorkspaceWithOrganization, get_with_organization, announcement, NamesWorkspace,
  announcement-NamesWorkspace,
}
use pairdbase.Text.{match_text}
use pairdbase.Workspace.Settings.{
  Circumstances, Tables, CreateWorkspaceRequest, WorkspaceView, WorkspaceRow, new_workspace,
  create_workspace, insert_workspace, join_workspace, delete_workspace, role_in, soft_delete,
  is_present,
}
use pairdbase.Workspace.Settings.Lifecycle.{seen, create_workspace-owner, delete_workspace-ok}
use pairdbase.Workspace.Members.Table.{OthersKeep}
use pairdbase.Workspace.Members.Ownership.{IsOwner, changes, Change-IsOwner}

abbrev no_fault : Faults
no_fault n = none

abbrev table : List MemberRow
table = new_member 9 1 owner 1 ∷ new_member 9 2 member 1 ∷ []

-- The member becomes a viewer, leaves, and an admin joins.
abbrev changed : List MemberRow
changed = new_member 9 1 owner 1 ∷ with_role viewer 50 (new_member 9 2 member 1) ∷ []

abbrev left : List MemberRow
left = new_member 9 1 owner 1 ∷ soft_deleted 50 (new_member 9 2 member 1) ∷ []

abbrev joined : List MemberRow
joined = new_member 9 1 owner 1 ∷ new_member 9 2 member 1 ∷ new_member 9 3 admin 1 ∷ []

changing : change_role no_fault table 9 2 (codes "viewer") 1 50 ≡ ok changed
unfolding change_role set_member_role
changing = refl

leaving : remove_member no_fault table 9 2 2 50 ≡ ok left
unfolding remove_member delete_member
leaving = refl

joining :
    admit_member no_fault table 9 (codes "c@d.org") (codes "admin") 1 (ok (some 3)) ≡ ok joined
unfolding admit_member add_member role_as_str
joining = refl

change_role-IsChange_example :
    (new : MemberRole) × (role_try_from (codes "viewer") ≡ ok new)
    × IsChange no_fault table 9 2 1 new
    × HasRole changed 9 2 new
    × OthersKeep table changed 9 2
change_role-IsChange_example =
    change_role-IsChange no_fault table 9 2 (codes "viewer") 1 50 changed changing

remove_member-IsRemoval_example :
    IsRemoval no_fault table 9 2 2
    × ((role : MemberRole) → HasRole left 9 2 role → role ≡ owner)
    × OthersKeep table left 9 2
remove_member-IsRemoval_example = remove_member-IsRemoval no_fault table 9 2 2 50 left leaving

admit_member-IsAdmission_example :
    (by : IsAdmission no_fault table 9 1 (codes "admin") (ok (some 3))) × HasRole joined 9
      by.invitee by.new
    × OthersKeep table joined 9 by.invitee
admit_member-IsAdmission_example =
    admit_member-IsAdmission no_fault table 9 (codes "c@d.org") (codes "admin") 1 (ok (some 3))
      joined joining

owned : IsOwner table 9 1
unfolding get_member_role role_as_str
owned = refl

Change-IsOwner_example : IsOwner changed 9 1
Change-IsOwner_example =
    Change-IsOwner table changed 9 1 (changes no_fault 9 2 (codes "viewer") 1 50 changed changing)
      owned

abbrev calm : Circumstances
calm = record { fault = no_fault; clock = λ i. 70 + i; new_id = 12 }

abbrev start : Tables
start = record { workspaces = []; members = table }

abbrev reports : CreateWorkspaceRequest
reports = record { name = codes "Reports"; description = none; color = none }

abbrev answer : WorkspaceView
answer = record {
  id = 12;
  organization_id = 4;
  name = codes "Reports";
  description = none;
  color = none;
  member_count = 1;
  user_role = codes "owner";
  created_by = 5;
  created_at = 70;
  updated_by = none;
  updated_at = some 71;
}

creating : (create_workspace calm reports 5 4 start).1 ≡ ok answer
unfolding create_workspace insert_workspace join_workspace add_member role_as_str ◌>>=◌
creating = refl

create_workspace-owner_example :
    HasRole (create_workspace calm reports 5 4 start).0.members 12 5 owner
    × ((row : WorkspaceRow) × (seen (create_workspace calm reports 5 4 start).0 12 ≡ some row)
        × (row.name ≡ codes "Reports")
        × (row.created_by ≡ 5)
        × (row.organization_id ≡ 4))
create_workspace-owner_example = create_workspace-owner calm reports 5 4 start answer creating refl

abbrev two_workspaces : Tables
two_workspaces = record {
  workspaces =
      new_workspace (record calm { new_id = 9 }) reports 1 4 ∷ new_workspace calm reports 1 4 ∷ [];
  members = table;
}

deleting : (delete_workspace calm 9 1 two_workspaces).1 ≡ ok tt
unfolding delete_workspace role_in require_member get_member_role is_live read_role role_try_from
    match_text role_as_str is_owner soft_delete is_present ◌>>=◌
deleting = refl

delete_workspace-ok_example :
    HasRole two_workspaces.members 9 1 owner
    × (seen (delete_workspace calm 9 1 two_workspaces).0 9 ≡ none)
    × (seen (delete_workspace calm 9 1 two_workspaces).0 12 ≡ seen two_workspaces 12)
    × ((delete_workspace calm 9 1 two_workspaces).0.members ≡ two_workspaces.members)
delete_workspace-ok_example = delete_workspace-ok calm 9 1 12 two_workspaces deleting refl

abbrev mailer : Mailer ℕ
mailer = record {
  send = λ msg n. (err (provider_error (codes "refused")), n + 1);
  base_url = codes "https://pairdbase.io";
  templates = record {
    welcome = [];
    password_reset = [];
    org_invitation = [];
    workspace_invitation = codes "Welcome to {{workspace_name}}";
    magic_link = [];
    plan_limit = [];
    connection_alert = [];
  };
  uuid_text = λ id. codes "5";
  walk = λ vars. vars;
}

abbrev sales : WorkspaceRow
sales = record {
  id = 5;
  organization_id = 3;
  name = codes "Sales";
  description = none;
  color = none;
  created_by = 1;
  created_at = 0;
  updated_by = none;
  updated_at = none;
  is_soft_deleted = false;
  deleted_by = none;
  deleted_at = none;
}

abbrev acme : NamedOrganization
acme = record { id = 3; name = codes "Acme" }

abbrev announced : OutboxEvent
announced =
    email_workspace_invitation (codes "c@d.org") (codes "c@d.org") (codes "Ann") (codes "Sales")
      (codes "Acme") (codes "viewer") 5

announcement-NamesWorkspace_example :
    (info : WorkspaceWithOrganization) × (get_with_organization none (sales ∷ []) (acme ∷ []) 5
      ≡ ok (some info))
    × NamesWorkspace mailer 0
        (codes "Ann")
        info.organization.name
        (dispatch_event mailer announced 0)
unfolding announcement get_with_organization is_present role_as_str
announcement-NamesWorkspace_example =
    announcement-NamesWorkspace mailer 0 none (sales ∷ []) (acme ∷ []) (codes "Ann")
      (codes "c@d.org") viewer 5 announced refl
