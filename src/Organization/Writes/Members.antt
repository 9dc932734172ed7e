-- ===== src/Organization/Writes/Members.antt =====
-- The changes that update_member_role and remove_member of
-- crates/app/src/features/organization/use_case.rs make.
use pairdbase.Common.{
  Option, transpose-eq-some, update_rows, ℕ, ◌≡◌, refl, false, not, ◌&&◌, some, ok, ◌==◌, ap, ◌∙◌,
  arith, find, ok_or-eq-ok,
}
use pairdbase.Common.Actions.{
  bind-ok, after_reading, after_writing, at_state, at_state-ok, require-ok,
}
use pairdbase.Text.{Text}
use pairdbase.Organization.Domain.{OrgRole, is_org_owner, is_org_admin, may_manage_members}
use pairdbase.Organization.Rows.{OrgMemberRow}
use pairdbase.Organization.Database.{Database, Environment}
use pairdbase.Organization.Repository.Members.{
  with_org_role, mark_deleted, delete_org_member, is_active, read_org_role, get_org_member_role,
  set_org_member_role, change_active,
}
use pairdbase.Organization.UseCases.{require_org_member}
use pairdbase.Organization.UseCases.Members.{
  remove_org_member, org_target_role, role_checks, removal_checks, update_member_role,
}
use pairdbase.Organization.Reading.{
  removal_checks-Reads, list_org_members-Reads, require_org_member-Reads, org_target_role-Reads,
  reading, role_checks-Reads, get_org_member_role-Reads,
}
use pairdbase.Organization.Writes.{
  HasOrgRole, ManagesOrg, Write, unchanged, role_set, member_removed,
}

get_org_member_role-HasOrgRole :
    (w : Environment) (i o u : ℕ) (db : Database) (r : OrgRole)
    → (get_org_member_role w i o u db).1 ≡ ok (some r)
    → HasOrgRole db o u r
unfolding get_org_member_role
get_org_member_role-HasOrgRole w i o u db r h =
    let (_, a, h1) = bind-ok _ _ db (search reading) h in
    let (row, c, d) =
      transpose-eq-some read_org_role (find (is_active o u) db.members) (at_state-ok _ db h1) in
    record { row = row; found = c; read = d }

require_org_member-HasOrgRole :
    (w : Environment) (i o u : ℕ) (db : Database) (r : OrgRole)
    → (require_org_member w i o u db).1 ≡ ok r
    → HasOrgRole db o u r
unfolding require_org_member
require_org_member-HasOrgRole w i o u db r h =
    let (found, a, k) = bind-ok _ _ db (get_org_member_role-Reads w i o u) h in
    get_org_member_role-HasOrgRole w i o u db r (a ∙ ap ok (ok_or-eq-ok found _ k))

org_target_role-HasOrgRole :
    (w : Environment) (i o u : ℕ) (db : Database) (r : OrgRole)
    → (org_target_role w i o u db).1 ≡ ok r
    → HasOrgRole db o u r
unfolding org_target_role
org_target_role-HasOrgRole w i o u db r h =
    let (found, a, k) = bind-ok _ _ db (get_org_member_role-Reads w i o u) h in
    get_org_member_role-HasOrgRole w i o u db r (a ∙ ap ok (ok_or-eq-ok found _ k))

module _ (w : Environment) where
  change_active-Write :
      {asker : Option ℕ} (i o u : ℕ) (f : OrgMemberRow → OrgMemberRow) (db : Database)
      → Write asker db (record db { members = update_rows (is_active o u) f db.members })
      → Write asker db (change_active w i o u f db).0
  unfolding change_active
  change_active-Write i o u f db h =
      after_reading _ _ (Write _) db (search reading) unchanged
        (λ _ _. at_state _ db (Write _) (after_writing _ _ (Write _) db (λ _. search reading) h))

  -- What the checks of `update_member_role` have seen.
  pub role_checks-ManagesOrg :
      (o target : ℕ) (role : Text) (requester : ℕ) (db : Database) (new : OrgRole)
      → (role_checks w o target role requester db).1 ≡ ok new
      → (theirs : OrgRole) × HasOrgRole db o target theirs
        × (is_org_owner theirs ≡ false)
        × (is_org_owner new ≡ false)
        × ManagesOrg db o requester theirs
  unfolding role_checks
  role_checks-ManagesOrg o target role requester db new h =
      let (mine, a, h1) = bind-ok _ _ db (require_org_member-Reads w 0 o requester) h in
      let (_, b, h2) = bind-ok _ _ db (search reading) h1 in
      let (r, c, h3) = bind-ok _ _ db (search reading) h2 in
      let (_, d, h4) = bind-ok _ _ db (search reading) h3 in
      let (theirs, e, h5) = bind-ok _ _ db (org_target_role-Reads w 1 o target) h4 in
      let (_, f, h6) = bind-ok _ _ db (search reading) h5 in
      let (_, g, h7) = bind-ok _ _ db (search reading) h6 in
      let can = require-ok (may_manage_members mine) _ db b in
      let new_other = require-ok (not (is_org_owner r)) _ db d in
      let other = require-ok (not (is_org_owner theirs)) _ db f in
      let under = require-ok (not (is_org_admin theirs && not (is_org_owner mine))) _ db g in
      let same : r ≡ new = cc in
      (
        theirs,
        org_target_role-HasOrgRole w 1 o target db theirs e,
        ground arith,
        ground arith,
        record {
          mine = mine;
          is_member = require_org_member-HasOrgRole w 0 o requester db mine a;
          manages = can;
          above = λ k. ground arith;
        },
      )

  pub update_member_role-Write :
      (o target : ℕ) (role : Text) (requester : ℕ) (db : Database)
      → Write (some requester) db (update_member_role w o target role requester db).0
  unfolding update_member_role set_org_member_role
  update_member_role-Write o target role requester db =
      after_reading _ _ (Write _) db (role_checks-Reads w o target role requester) unchanged
        (λ new e.
          after_writing _ _ (Write _) db (λ _. search (reading, list_org_members-Reads) depth 8)
            (let (theirs, a, b, c, d) = role_checks-ManagesOrg o target role requester db new e in
              change_active-Write 2 o target (with_org_role new (w.clock 2)) db
                (role_set o target requester (w.clock 2) new theirs refl a b c d)))

  -- What the checks of `remove_member` have seen.
  pub removal_checks-ManagesOrg :
      (o target requester : ℕ) (db : Database)
      → (removal_checks w o target requester db).1 ≡ ok tt
      → (theirs : OrgRole) × HasOrgRole db o target theirs
        × (is_org_owner theirs ≡ false)
        × ((target == requester) ≡ false → ManagesOrg db o requester theirs)
  unfolding removal_checks
  removal_checks-ManagesOrg o target requester db h =
      let (mine, a, h1) = bind-ok _ _ db (require_org_member-Reads w 0 o requester) h in
      let (_, b, h2) = bind-ok _ _ db (search reading) h1 in
      let (theirs, e, h3) = bind-ok _ _ db (org_target_role-Reads w 1 o target) h2 in
      let (_, f, h4) = bind-ok _ _ db (search reading) h3 in
      let can =
        require-ok (not (not (target == requester) && not (may_manage_members mine))) _ db b in
      let other = require-ok (not (is_org_owner theirs)) _ db f in
      let under =
        require-ok
          (not (is_org_admin theirs && not (is_org_owner mine) && not (target == requester))) _ db
          h4 in
      (
        theirs,
        org_target_role-HasOrgRole w 1 o target db theirs e,
        ground arith,
        λ n. record {
          mine = mine;
          is_member = require_org_member-HasOrgRole w 0 o requester db mine a;
          manages = ground arith;
          above = λ k. ground arith;
        },
      )

  pub remove_org_member-Write :
      (o target requester : ℕ) (db : Database)
      → Write (some requester) db (remove_org_member w o target requester db).0
  unfolding remove_org_member delete_org_member
  remove_org_member-Write o target requester db =
      after_reading _ _ (Write _) db (removal_checks-Reads w o target requester) unchanged (λ _ e.
        (let (theirs, a, b, c) = removal_checks-ManagesOrg o target requester db e in
          change_active-Write 2 o target (mark_deleted (w.clock 2)) db
            (member_removed o target requester (w.clock 2) theirs refl a b c)))
