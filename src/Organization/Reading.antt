-- ===== src/Organization/Reading.antt =====
-- The calls and checks of crates/app/src/features/organization that leave the tables as they are.
use pairdbase.Common.{ℕ}
use pairdbase.Common.Actions.{
  match_option, match_option-Reads, Reads, bind-Reads, return-Reads, raise-Reads, get_state-Reads,
  lift-Reads, require-Reads, may_fail-Reads, ◌>>=◌,
}
use pairdbase.Text.{Text}
use pairdbase.Organization.Database.{Environment, call}
use pairdbase.Organization.Repository.Members.{
  get_org_member_role, list_org_members, find_org_member,
}
use pairdbase.Organization.Repository.Organizations.{find_organization, find_by_slug, get_org_usage}
use pairdbase.Organization.Repository.Invitations.{
  find_invitation_by_token, list_pending_invitations,
}
use pairdbase.Organization.UseCases.{
  require_org_member, known_organization, get_organization, get_usage, list_members,
  list_invitations,
}
use pairdbase.Organization.UseCases.Members.{org_target_role, role_checks, removal_checks}
use pairdbase.Organization.UseCases.Invitations.{invitation_checks}

pub ruleset reading = (
  bind-Reads, return-Reads, raise-Reads, get_state-Reads, lift-Reads, require-Reads, may_fail-Reads,
  match_option-Reads,
)

pub call-Reads : (w : Environment) (i : ℕ) → Reads (call w i)
call-Reads w i = search reading

pub get_org_member_role-Reads : (w : Environment) (i o u : ℕ) → Reads (get_org_member_role w i o u)
unfolding get_org_member_role
get_org_member_role-Reads w i o u = search reading depth 12

pub list_org_members-Reads : (w : Environment) (i o : ℕ) → Reads (list_org_members w i o)
unfolding list_org_members
list_org_members-Reads w i o = search reading depth 12

pub find_org_member-Reads : (w : Environment) (i o u : ℕ) → Reads (find_org_member w i o u)
unfolding find_org_member
find_org_member-Reads w i o u = search reading depth 12

pub find_organization-Reads : (w : Environment) (i o : ℕ) → Reads (find_organization w i o)
unfolding find_organization
find_organization-Reads w i o = search reading depth 12

pub find_by_slug-Reads : (w : Environment) (i : ℕ) (slug : Text) → Reads (find_by_slug w i slug)
unfolding find_by_slug
find_by_slug-Reads w i slug = search reading depth 12

pub get_org_usage-Reads : (w : Environment) (i o : ℕ) → Reads (get_org_usage w i o)
unfolding get_org_usage
get_org_usage-Reads w i o = search reading depth 12

pub find_invitation_by_token-Reads :
    (w : Environment) (i : ℕ) (token : Text) → Reads (find_invitation_by_token w i token)
unfolding find_invitation_by_token
find_invitation_by_token-Reads w i token = search reading depth 12

pub list_pending_invitations-Reads :
    (w : Environment) (i o : ℕ) → Reads (list_pending_invitations w i o)
unfolding list_pending_invitations
list_pending_invitations-Reads w i o = search reading depth 12

pub require_org_member-Reads : (w : Environment) (i o u : ℕ) → Reads (require_org_member w i o u)
unfolding require_org_member
require_org_member-Reads w i o u = search (reading, get_org_member_role-Reads)

pub known_organization-Reads : (w : Environment) (i o : ℕ) → Reads (known_organization w i o)
unfolding known_organization
known_organization-Reads w i o = search (reading, find_organization-Reads)

pub org_target_role-Reads : (w : Environment) (i o u : ℕ) → Reads (org_target_role w i o u)
unfolding org_target_role
org_target_role-Reads w i o u = search (reading, get_org_member_role-Reads)

pub ruleset asking = (
  reading, require_org_member-Reads, known_organization-Reads, org_target_role-Reads,
  list_org_members-Reads, get_org_usage-Reads, list_pending_invitations-Reads,
)

pub role_checks-Reads :
    (w : Environment) (o target : ℕ) (role : Text) (u : ℕ) → Reads (role_checks w o target role u)
unfolding role_checks
role_checks-Reads w o target role u = search asking depth 12

pub removal_checks-Reads : (w : Environment) (o target u : ℕ) → Reads (removal_checks w o target u)
unfolding removal_checks
removal_checks-Reads w o target u = search asking depth 12

pub invitation_checks-Reads :
    (w : Environment) (o : ℕ) (role : Text) (u : ℕ) → Reads (invitation_checks w o role u)
unfolding invitation_checks
invitation_checks-Reads w o role u = search asking depth 12

pub get_organization-Reads : (w : Environment) (o u : ℕ) → Reads (get_organization w o u)
unfolding get_organization
get_organization-Reads w o u = search asking depth 12

pub get_usage-Reads : (w : Environment) (o u : ℕ) → Reads (get_usage w o u)
unfolding get_usage
get_usage-Reads w o u = search asking depth 12

pub list_members-Reads : (w : Environment) (o u : ℕ) → Reads (list_members w o u)
unfolding list_members
list_members-Reads w o u = search asking depth 12

pub list_invitations-Reads : (w : Environment) (o u : ℕ) → Reads (list_invitations w o u)
unfolding list_invitations
list_invitations-Reads w o u = search asking depth 12
