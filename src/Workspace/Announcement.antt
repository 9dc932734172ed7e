-- ===== src/Workspace/Announcement.antt =====
-- The e-mail to a new member: get_with_organization of
-- crates/app/src/features/workspace/repository.rs and the event that invite_member of
-- crates/app/src/features/workspace/use_case.rs puts into the outbox.
use pairdbase.Common.{
  ℕ, ◌≡◌, refl, Option, none, some, List, ◌++◌, Result, ok, err, ◌>>=◌, ◌>>◌, ok_or, ok_or-eq-ok,
  >>=-eq-ok, map_err, find, ◌==◌, subst,
}
use pairdbase.Text.{Text, codes}
use pairdbase.Workspace.Domain.{
  MemberRole, role_as_str, WorkspaceError, workspace_not_found, workspace_internal,
}
use pairdbase.Workspace.Settings.{WorkspaceRow, is_present}
use pairdbase.Email.Types.{EmailMessage, email_error_text}
use pairdbase.Email.Service.{Mailer}
use pairdbase.Email.Messages.{send_workspace_invitation}
use pairdbase.Outbox.Events.{OutboxEvent, email_workspace_invitation, send_event, dispatch_event}

-- A row of the organizations, with what is read of it.
pub record NamedOrganization : Type 0 where
  pub id : ℕ
  pub name : Text

pub record WorkspaceWithOrganization : Type 0 where
  pub workspace : WorkspaceRow
  pub organization : NamedOrganization

abbrev with_organization :
    List NamedOrganization → Option WorkspaceRow → Option WorkspaceWithOrganization
with_organization orgs none = none
with_organization orgs (some w) = elim (find (λ o. o.id == w.organization_id) orgs) [
  | some o ↦ some (record { workspace = w; organization = o })
  | none ↦ none
]

unfoldable pub get_with_organization :
    Option Text
    → List WorkspaceRow
    → List NamedOrganization
    → ℕ
    → Result WorkspaceError (Option WorkspaceWithOrganization)
get_with_organization (some e) workspaces orgs workspace_id = err (workspace_internal e)
get_with_organization none workspaces orgs workspace_id =
    ok (with_organization orgs (find (is_present workspace_id) workspaces))

unfoldable pub announcement :
    Option Text
    → List WorkspaceRow
    → List NamedOrganization
    → Text
    → Text
    → MemberRole
    → ℕ
    → Result WorkspaceError OutboxEvent
unfolding get_with_organization role_as_str
announcement fault workspaces orgs inviter email role workspace_id = do
  found ← get_with_organization fault workspaces orgs workspace_id
  info ← ok_or found workspace_not_found
  ok (
      email_workspace_invitation email email inviter info.workspace.name info.organization.name
        (role_as_str role) workspace_id)

-- The subject calls the workspace by the name.
abbrev pub NamesWorkspace :
    {S : Type 0} → Mailer S → S → Text → Text → Result Text (Unit {0}) × S → Type 0
NamesWorkspace m s inviter name outcome =
    (msg : EmailMessage) × (outcome
      ≡ (map_err email_error_text ((m.send msg s).0 >> ok tt), (m.send msg s).1))
    × (msg.subject ≡ inviter ++ codes " added you to the " ++ name ++ codes " workspace")

-- The e-mail to a new member calls the workspace by the name of its organization: its subject says
-- that the inviter added them to a workspace of that name.
pub announcement-NamesWorkspace :
    {S : Type 0} (m : Mailer S) (s : S) (fault : Option Text) (workspaces : List WorkspaceRow)
    (orgs : List NamedOrganization) (inviter email : Text) (role : MemberRole) (workspace_id : ℕ)
    (e : OutboxEvent)
    → announcement fault workspaces orgs inviter email role workspace_id ≡ ok e
    → (info : WorkspaceWithOrganization) × (get_with_organization fault workspaces orgs workspace_id
        ≡ ok (some info))
      × NamesWorkspace m s inviter info.organization.name (dispatch_event m e s)
unfolding announcement dispatch_event send_event send_workspace_invitation
announcement-NamesWorkspace m s fault workspaces orgs inviter email role workspace_id e h =
    let (found, g, h') = >>=-eq-ok (get_with_organization fault workspaces orgs workspace_id) _ h in
    let (info, i, h'') = >>=-eq-ok (ok_or found workspace_not_found) _ h' in
    let there : found ≡ some info = ok_or-eq-ok found _ i in
    let same : email_workspace_invitation email email inviter info.workspace.name
          info.organization.name (role_as_str role) workspace_id
        ≡ e =
      cc in
    (
      info,
      cc,
      subst (λ e. NamesWorkspace m s inviter info.organization.name (dispatch_event m e s)) same
          (_, refl, refl),
    )
