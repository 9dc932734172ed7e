-- ===== src/Organization/Repository/Members.antt =====
-- The table of members: get_member_role, list_members, add_member, update_member_role,
-- find_member and remove_member of crates/app/src/features/organization/repository.rs. The index
-- UQ_ORGANIZATION_MEMBERS_ACTIVE and the NOT NULL of CREATED_BY are those of
-- migrations/20260921150144_create_tbl_organization.sql.
use pairdbase.Common.{
  first, ℕ, Bool, true, false, not, ◌&&◌, Option, none, some, List, [], ◌∷◌, ◌++◌, Result, map_err,
  ◌==◌, find, any_of, is_some, if◌then◌else◌, update_rows, collect, transpose, sort_by,
}
use pairdbase.Common.Actions.{match_option, ◌>>=◌, ◌>>◌, raise, get_state, put_state, require, lift}
use pairdbase.Text.{Text, codes}
use pairdbase.Organization.Domain.{
  OrgRole, org_role_as_str, org_role_try_from, OrgError, org_not_found, org_internal,
  invalid_org_role,
}
use pairdbase.Organization.Rows.{OrgMemberRow, OrgMemberWithUserView, OrgMember, org_member_of}
use pairdbase.Organization.Database.{UserRow, Environment, Run, call}

-- The row is the user's in the organization, and is not deleted.
unfoldable pub is_active : ℕ → ℕ → OrgMemberRow → Bool
is_active org_id user_id r = r.org_id == org_id && r.user_id == user_id && not r.is_soft_deleted

-- The text of an error in a stored role.
abbrev org_role_fault : OrgError → OrgError
org_role_fault (invalid_org_role s) = org_internal (codes "invalid role: " ++ s)
org_role_fault e = e

unfoldable pub read_org_role : OrgMemberRow → Result OrgError OrgRole
unfolding org_role_try_from
read_org_role r = map_err org_role_fault (org_role_try_from r.role)

unfoldable pub get_org_member_role : Environment → ℕ → ℕ → ℕ → Run (Option OrgRole)
unfolding is_active read_org_role
get_org_member_role w i org_id user_id = do
  call w i
  db ← get_state
  lift (transpose read_org_role (find (is_active org_id user_id) db.members))

abbrev with_user : OrgMemberRow → UserRow → OrgMemberWithUserView
with_user m u = record {
  id = m.id;
  org_id = m.org_id;
  user_id = m.user_id;
  email = u.email;
  display_name = u.display_name;
  avatar_url = u.avatar_url;
  role = m.role;
  joined_at = m.joined_at;
  created_by = m.created_by;
  created_at = m.created_at;
  updated_by = m.updated_by;
  updated_at = m.updated_at;
}

-- The rows that pass the test, each joined with its user.
unfoldable pub join_users :
    (OrgMemberRow → Bool) → List UserRow → List OrgMemberRow → List OrgMemberWithUserView
join_users p users [] = []
join_users p users (m ∷ ms) =
    let rest = join_users p users ms in
    if p m
    then elim (find (λ u. u.id == m.user_id) users) [ none ↦ rest | some u ↦ with_user m u ∷ rest ]
    else rest

unfoldable pub list_org_members : Environment → ℕ → ℕ → Run (List OrgMember)
unfolding join_users org_member_of
list_org_members w i org_id = do
  call w i
  db ← get_state
  lift (
      collect org_member_of (
        sort_by (λ m. m.joined_at)
          (join_users (λ m. m.org_id == org_id && not m.is_soft_deleted) db.users db.members)))

-- Whether the unique index holds an entry for the user in the organization.
unfoldable pub is_indexed : ℕ → ℕ → OrgMemberRow → Bool
unfolding is_active
is_indexed org_id user_id r = is_active org_id user_id r && not (is_some r.deleted_at)

abbrev pub new_org_member : Environment → ℕ → ℕ → ℕ → ℕ → Text → ℕ → OrgMemberRow
new_org_member w i now org_id user_id role by = record {
  id = w.fresh i;
  org_id = org_id;
  user_id = user_id;
  role = role;
  joined_at = now;
  created_by = by;
  created_at = now;
  updated_by = none;
  updated_at = none;
  is_soft_deleted = false;
  deleted_by = none;
  deleted_at = none;
}

-- `INSERT INTO TBL_ORGANIZATION_MEMBERS (org_id, user_id, role, joined_at, created_by)`, under the
-- constraints of the table; `now` is `NOW()`.
unfoldable pub insert_org_member : Environment → ℕ → ℕ → ℕ → ℕ → Text → Option ℕ → Run (Unit {0})
unfolding is_indexed
insert_org_member w i now org_id user_id role none =
    call w i >> raise (org_internal (w.violation (codes "created_by")))
insert_org_member w i now org_id user_id role (some by) = do
  call w i
  db ← get_state
  require (not (any_of (is_indexed org_id user_id) db.members))
      (org_internal (w.violation (codes "UQ_ORGANIZATION_MEMBERS_ACTIVE")))
  put_state
      (record db { members = db.members ++ new_org_member w i now org_id user_id role by ∷ [] })

unfoldable pub add_org_member : Environment → ℕ → ℕ → ℕ → OrgRole → Option ℕ → Run (Unit {0})
unfolding insert_org_member org_role_as_str
add_org_member w i org_id user_id role invited_by =
    insert_org_member w i (w.clock i) org_id user_id (org_role_as_str role) invited_by

unfoldable pub with_org_role : OrgRole → ℕ → OrgMemberRow → OrgMemberRow
unfolding org_role_as_str
with_org_role role now r = record r { role = org_role_as_str role; updated_at = some now }

-- Changes the rows of the user in the organization, which must not be none.
unfoldable pub change_active :
    Environment → ℕ → ℕ → ℕ → (OrgMemberRow → OrgMemberRow) → Run (Unit {0})
unfolding is_active
change_active w i org_id user_id f = do
  call w i
  db ← get_state
  put_state (record db { members = update_rows (is_active org_id user_id) f db.members })
  require (any_of (is_active org_id user_id) db.members) org_not_found

unfoldable pub set_org_member_role : Environment → ℕ → ℕ → ℕ → OrgRole → Run (Unit {0})
unfolding change_active with_org_role
set_org_member_role w i org_id user_id role =
    change_active w i org_id user_id (with_org_role role (w.clock i))

unfoldable pub find_org_member : Environment → ℕ → ℕ → ℕ → Run OrgMember
unfolding join_users is_active org_member_of match_option
find_org_member w i org_id requester_id = do
  call w i
  db ← get_state
  match_option (first (join_users (is_active org_id requester_id) db.users db.members))
      (raise org_not_found) (λ row. lift (org_member_of row))

unfoldable pub mark_deleted : ℕ → OrgMemberRow → OrgMemberRow
mark_deleted now r = record r { is_soft_deleted = true; deleted_at = some now }

unfoldable pub delete_org_member : Environment → ℕ → ℕ → ℕ → Run (Unit {0})
unfolding change_active mark_deleted
delete_org_member w i org_id user_id = change_active w i org_id user_id (mark_deleted (w.clock i))
