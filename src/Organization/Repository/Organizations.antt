-- ===== src/Organization/Repository/Organizations.antt =====
-- The table of organizations: find_by_id, find_by_slug, create, update, get_usage and
-- increment_ai_credits of crates/app/src/features/organization/repository.rs. The index
-- UQ_ORGANIZATIONS_SLUG is that of migrations/20260921150144_create_tbl_organization.sql; where
-- several rows match a slug, the first is read.
use pairdbase.Common.{
  ℕ, ◌+◌, Bool, false, not, ◌&&◌, Option, none, some, List, [], ◌∷◌, ◌++◌, length, ◌==◌, find,
  any_of, keep, update_rows, transpose,
}
use pairdbase.Common.Int.{ℤ, ◌+ℤ◌, ltb_ℤ, in_i32}
use pairdbase.Common.Actions.{
  match_option, ◌>>=◌, ◌>>◌, return, raise, get_state, put_state, require, lift,
}
use pairdbase.Text.{Text, codes, text_eq}
use pairdbase.Organization.Domain.{org_not_found, org_internal, plan_limit_reached, plan_as_str}
use pairdbase.Organization.Rows.{Organization, OrganizationRow, organization_of}
use pairdbase.Organization.Database.{OwnedRow, Environment, Run, call, decoded}

-- The fields that `OrganizationRow` takes from a row.
unfoldable pub organization_fields : List Text
organization_fields =
    codes "id"
    ∷ codes "name"
    ∷ codes "slug"
    ∷ codes "plan"
    ∷ codes "logo_url"
    ∷ codes "website"
    ∷ codes "sso_enabled"
    ∷ codes "max_workspaces"
    ∷ codes "max_members"
    ∷ codes "max_connections"
    ∷ codes "ai_credits_limit"
    ∷ codes "ai_credits_used"
    ∷ codes "trial_ends_at"
    ∷ codes "created_by"
    ∷ codes "created_at"
    ∷ codes "updated_by"
    ∷ codes "updated_at"
    ∷ codes "is_soft_deleted"
    ∷ codes "deleted_by"
    ∷ codes "deleted_at"
    ∷ []

-- What `update` and `get_usage` select.
unfoldable pub brief_columns : List Text
brief_columns =
    codes "id"
    ∷ codes "name"
    ∷ codes "slug"
    ∷ codes "plan"
    ∷ codes "logo_url"
    ∷ codes "website"
    ∷ codes "sso_enabled"
    ∷ codes "max_workspaces"
    ∷ codes "max_members"
    ∷ codes "max_connections"
    ∷ codes "ai_credits_limit"
    ∷ codes "ai_credits_used"
    ∷ codes "trial_ends_at"
    ∷ codes "created_at"
    ∷ codes "updated_at"
    ∷ []

abbrev pub has_id : ℕ → OrganizationRow → Bool
has_id id r = r.id == id

unfoldable pub find_organization : Environment → ℕ → ℕ → Run (Option Organization)
unfolding organization_of
find_organization w i id = do
  call w i
  db ← get_state
  lift (transpose organization_of (find (has_id id) db.organizations))

unfoldable pub has_slug : Environment → Text → OrganizationRow → Bool
unfolding text_eq
has_slug w slug r = text_eq (w.lower r.slug) (w.lower slug)

unfoldable pub find_by_slug : Environment → ℕ → Text → Run (Option Organization)
unfolding has_slug organization_of
find_by_slug w i slug = do
  call w i
  db ← get_state
  lift (transpose organization_of (find (has_slug w slug) db.organizations))

unfoldable pub organization_row : Environment → ℕ → Organization → ℕ → OrganizationRow
unfolding plan_as_str
organization_row w i org created_by = record {
  id = org.id;
  name = org.name;
  slug = org.slug;
  plan = plan_as_str org.plan;
  logo_url = org.logo_url;
  website = org.website;
  sso_enabled = org.sso_enabled;
  max_workspaces = org.max_workspaces;
  max_members = org.max_members;
  max_connections = org.max_connections;
  ai_credits_limit = org.ai_credits_limit;
  ai_credits_used = org.ai_credits_used;
  trial_ends_at = org.trial_ends_at;
  created_by = created_by;
  created_at = w.clock i;
  updated_by = none;
  updated_at = none;
  is_soft_deleted = false;
  deleted_by = none;
  deleted_at = none;
}

unfoldable pub insert_organization : Environment → ℕ → Organization → ℕ → Run Organization
unfolding organization_row has_slug organization_of
insert_organization w i org created_by = do
  call w i
  db ← get_state
  require (not (any_of (has_id org.id) db.organizations))
      (org_internal (w.violation (codes "TBL_ORGANIZATIONS_PKEY")))
  require (not (any_of (λ r. has_slug w org.slug r && not r.is_soft_deleted) db.organizations))
      (org_internal (w.violation (codes "UQ_ORGANIZATIONS_SLUG")))
  let row = organization_row w i org created_by
  put_state (record db { organizations = db.organizations ++ row ∷ [] })
  lift (organization_of row)

-- The row that an update leaves.
unfoldable pub with_settings : Organization → OrganizationRow → OrganizationRow
unfolding plan_as_str
with_settings org r = record r {
  name = org.name;
  slug = org.slug;
  plan = plan_as_str org.plan;
  logo_url = org.logo_url;
  website = org.website;
  sso_enabled = org.sso_enabled;
  max_workspaces = org.max_workspaces;
  max_members = org.max_members;
  max_connections = org.max_connections;
  ai_credits_limit = org.ai_credits_limit;
  ai_credits_used = org.ai_credits_used;
  trial_ends_at = org.trial_ends_at;
  updated_at = some org.updated_at;
}

unfoldable pub update_organization : Environment → ℕ → Organization → Run Organization
unfolding with_settings organization_of brief_columns organization_fields match_option
update_organization w i org = do
  call w i
  db ← get_state
  let after = update_rows (has_id org.id) (with_settings org) db.organizations
  put_state (record db { organizations = after })
  match_option (find (has_id org.id) after) (raise org_not_found)
      (λ row. decoded w brief_columns organization_fields >> lift (organization_of row))

pub record OrgUsageView : Type 0 where
  pub workspace_count : ℕ
  pub member_count : ℕ
  pub connection_count : ℕ
  pub ai_credits_used : ℤ
  pub ai_credits_limit : ℤ
  pub max_workspaces : ℤ
  pub max_members : ℤ
  pub max_connections : ℤ

-- `SELECT COUNT(*)` of the organization's rows that are not deleted.
unfoldable pub count_owned : ℕ → List OwnedRow → ℕ
count_owned org_id rows =
    length (keep (λ r. r.organization_id == org_id && not r.is_soft_deleted) rows)

-- Its four calls have the numbers from `i` on.
unfoldable pub get_org_usage : Environment → ℕ → ℕ → Run OrgUsageView
unfolding organization_of brief_columns organization_fields count_owned match_option
get_org_usage w i org_id = do
  call w i
  db ← get_state
  row ←
      match_option (find (has_id org_id) db.organizations) (raise org_not_found)
        (λ row. decoded w brief_columns organization_fields >> return row)
  call w (i + 1)
  call w (i + 2)
  call w (i + 3)
  org ← lift (organization_of row)
  return (record {
    workspace_count = count_owned org_id db.workspaces;
    member_count = length (keep (λ m. m.org_id == org_id && not m.is_soft_deleted) db.members);
    connection_count = count_owned org_id db.connections;
    ai_credits_used = org.ai_credits_used;
    ai_credits_limit = org.ai_credits_limit;
    max_workspaces = org.max_workspaces;
    max_members = org.max_members;
    max_connections = org.max_connections;
  })

-- The row has the credits left; the sum of two integers is refused beyond 32 bits.
unfoldable pub affords : ℕ → ℤ → OrganizationRow → Bool
unfolding ◌+ℤ◌
affords org_id amount r =
    r.id == org_id && not (ltb_ℤ r.ai_credits_limit (r.ai_credits_used +ℤ amount))

unfoldable pub overflows : ℕ → ℤ → OrganizationRow → Bool
unfolding ◌+ℤ◌ in_i32
overflows org_id amount r = r.id == org_id && not (in_i32 (r.ai_credits_used +ℤ amount))

unfoldable pub with_credits : ℤ → ℕ → OrganizationRow → OrganizationRow
unfolding ◌+ℤ◌
with_credits amount now r = record r {
  ai_credits_used = r.ai_credits_used +ℤ amount;
  updated_at = some now;
}

unfoldable pub increment_ai_credits : Environment → ℕ → ℕ → ℤ → Run (Unit {0})
unfolding affords overflows with_credits
increment_ai_credits w i org_id amount = do
  call w i
  db ← get_state
  require (not (any_of (overflows org_id amount) db.organizations))
      (org_internal (w.violation (codes "integer out of range")))
  put_state (record db {
    organizations =
        update_rows (affords org_id amount) (with_credits amount (w.clock i)) db.organizations;
  })
  require (any_of (affords org_id amount) db.organizations)
      (plan_limit_reached (codes "AI credit limit reached"))
