-- ===== src/Organization/UseCases.antt =====
-- The use cases of organizations and their settings: get, create, update, get_usage,
-- list_members, list_pending_invitations and consume_ai_credits of
-- crates/app/src/features/organization/use_case.rs. The calls of the database, and of the clock
-- of the program, are numbered in the order of the code. A sum of 32 bits wraps around, as it
-- does in a release build.
pub mod Members
pub mod Invitations
use pairdbase.Common.{
  ◌∷◌, ◌+◌, ok_or, ℕ, Bool, true, false, not, Option, none, some, List, ◌++◌, is_some,
}
use pairdbase.Common.Int.{ℤ, pos, negsuc, ◌+ℤ◌, ltb_ℤ, wrap_i32}
use pairdbase.Common.Actions.{◌>>=◌, ◌>>◌, return, require, lift}
use pairdbase.Text.{Text, codes, decimal_ℤ}
use pairdbase.Organization.Domain.{
  OrgRole, org_owner, free, may_manage_members, OrgError, org_not_found, slug_taken, org_forbidden,
  plan_limit_reached, plan_max_workspaces, plan_max_members, plan_max_connections,
  plan_ai_credits_limit, slugify,
}
use pairdbase.Organization.Rows.{Organization, OrgMember, OrgInvitation}
use pairdbase.Organization.Database.{Environment, Run}
use pairdbase.Organization.Repository.Members.{
  get_org_member_role, list_org_members, add_org_member,
}
use pairdbase.Organization.Repository.Organizations.{
  find_organization, find_by_slug, insert_organization, update_organization, OrgUsageView,
  get_org_usage, increment_ai_credits,
}
use pairdbase.Organization.Repository.Invitations.{list_pending_invitations}

unfoldable pub require_org_member : Environment → ℕ → ℕ → ℕ → Run OrgRole
unfolding get_org_member_role
require_org_member w i org_id user_id = do
  role ← get_org_member_role w i org_id user_id
  lift (ok_or role org_forbidden)

-- The organization, which must be there.
unfoldable pub known_organization : Environment → ℕ → ℕ → Run Organization
unfolding find_organization
known_organization w i org_id = do
  org ← find_organization w i org_id
  lift (ok_or org org_not_found)

unfoldable pub get_organization : Environment → ℕ → ℕ → Run Organization
unfolding require_org_member known_organization
get_organization w org_id user_id = do
  require_org_member w 0 org_id user_id
  known_organization w 1 org_id

pub record CreateOrgRequest : Type 0 where
  pub name : Text
  pub slug : Option Text
  pub website : Option Text

abbrev slug_of : Environment → CreateOrgRequest → Text
slug_of w req = elim req.slug [ none ↦ slugify w.unicode req.name | some slug ↦ slug ]

-- A new organization, on the free plan.
unfoldable pub new_organization : Environment → CreateOrgRequest → Text → Organization
unfolding plan_max_workspaces plan_max_members plan_max_connections plan_ai_credits_limit
new_organization w req slug = record {
  id = w.fresh 1;
  name = req.name;
  slug = slug;
  plan = free;
  logo_url = none;
  website = req.website;
  sso_enabled = false;
  max_workspaces = plan_max_workspaces free;
  max_members = plan_max_members free;
  max_connections = plan_max_connections free;
  ai_credits_limit = plan_ai_credits_limit free;
  ai_credits_used = pos 0;
  trial_ends_at = none;
  created_at = w.clock 1;
  updated_at = w.clock 2;
}

unfoldable pub create_organization : Environment → CreateOrgRequest → ℕ → Run Organization
unfolding slugify find_by_slug new_organization insert_organization add_org_member
create_organization w req user_id = do
  let slug = slug_of w req
  taken ← find_by_slug w 0 slug
  require (not (is_some taken)) slug_taken
  saved ← insert_organization w 3 (new_organization w req slug) user_id
  add_org_member w 4 saved.id user_id org_owner none
  return saved

pub record UpdateOrgRequest : Type 0 where
  pub name : Option Text
  pub logo_url : Option Text
  pub website : Option Text

-- `Option::or`.
abbrev or_other {ℓ} : {A : Type ℓ} → Option A → Option A → Option A
or_other none b = b
or_other (some a) b = some a

-- `Option::unwrap_or`.
abbrev value_or {ℓ} : {A : Type ℓ} → Option A → A → A
value_or none b = b
value_or (some a) b = a

unfoldable pub with_request : UpdateOrgRequest → ℕ → Organization → Organization
with_request req now existing = record existing {
  name = value_or req.name existing.name;
  logo_url = or_other req.logo_url existing.logo_url;
  website = or_other req.website existing.website;
  updated_at = now;
}

unfoldable pub update_settings : Environment → ℕ → UpdateOrgRequest → ℕ → Run Organization
unfolding require_org_member may_manage_members known_organization with_request update_organization
update_settings w org_id req user_id = do
  role ← require_org_member w 0 org_id user_id
  require (may_manage_members role) org_forbidden
  existing ← known_organization w 1 org_id
  update_organization w 3 (with_request req (w.clock 2) existing)

unfoldable pub get_usage : Environment → ℕ → ℕ → Run OrgUsageView
unfolding require_org_member get_org_usage
get_usage w org_id user_id = do require_org_member w 0 org_id user_id; get_org_usage w 1 org_id

unfoldable pub list_members : Environment → ℕ → ℕ → Run (List OrgMember)
unfolding require_org_member list_org_members
list_members w org_id user_id = do
  require_org_member w 0 org_id user_id
  list_org_members w 1 org_id

unfoldable pub list_invitations : Environment → ℕ → ℕ → Run (List OrgInvitation)
unfolding require_org_member may_manage_members list_pending_invitations
list_invitations w org_id user_id = do
  role ← require_org_member w 0 org_id user_id
  require (may_manage_members role) org_forbidden
  list_pending_invitations w 1 org_id

unfoldable pub consume_ai_credits : Environment → ℕ → ℤ → Run (Unit {0})
unfolding known_organization ◌+ℤ◌ wrap_i32 decimal_ℤ increment_ai_credits
consume_ai_credits w org_id amount = do
  org ← known_organization w 0 org_id
  require (not (ltb_ℤ org.ai_credits_limit (wrap_i32 (org.ai_credits_used +ℤ amount)))) (
      plan_limit_reached (
        codes "AI credit limit of "
        ++ decimal_ℤ org.ai_credits_limit
        ++ codes " reached. Upgrade your plan for more."))
  increment_ai_credits w 1 org_id amount
