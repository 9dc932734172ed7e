-- ===== src/Organization/Removal.antt =====
-- The answer of remove_member (crates/app/src/features/organization/use_case.rs) where no call of
-- the database fails.
use pairdbase.Common.{
  ap, transpose-some, ℕ, ◌≡◌, refl, Bool, true, false, not, ◌&&◌, ◌⊎◌, inl, inr, none, some, List,
  [], ◌∷◌, ok, find, any_of, ◌==◌, arith, update_rows, subst, sym, Result,
}
use pairdbase.Common.Actions.{◌>>=◌}
use pairdbase.Organization.Domain.{
  OrgError, OrgRole, is_org_owner, is_org_admin, may_manage_members,
}
use pairdbase.Organization.Rows.{OrgMemberRow}
use pairdbase.Organization.Database.{Database, Environment}
use pairdbase.Organization.Repository.Members.{
  read_org_role, read_org_role, is_active, get_org_member_role, delete_org_member, change_active,
  mark_deleted,
}
use pairdbase.Organization.UseCases.{require_org_member}
use pairdbase.Organization.UseCases.Members.{org_target_role, removal_checks, remove_org_member}
use pairdbase.Organization.Writes.{HasOrgRole}
use pairdbase.Organization.Roles.{roles_of, assign, Same}
use pairdbase.Organization.Roles.Table.{roles-mark_deleted}

-- No call of the database fails.
abbrev pub IsCalm : Environment → Type 0
IsCalm w = (i : ℕ) → w.fault i ≡ none

found_any :
    (p : OrgMemberRow → Bool) (rows : List OrgMemberRow) (r : OrgMemberRow)
    → find p rows ≡ some r
    → any_of p rows ≡ true
found_any p [] r h = cc
found_any p (x ∷ xs) r h = ground (arith, found_any p xs r)

module _ (w : Environment) (calm : IsCalm w) (o : ℕ) (db : Database) where
  get_org_member_role-answer :
      (i u : ℕ) (role : OrgRole)
      → HasOrgRole db o u role
      → get_org_member_role w i o u db ≡ (db, ok (some role))
  unfolding get_org_member_role ◌>>=◌
  get_org_member_role-answer i u role h =
      rw (calm i, h.found) (ap (λ r. (db, r)) (transpose-some read_org_role h.row h.read))

  require_org_member-answer :
      (i u : ℕ) (role : OrgRole)
      → HasOrgRole db o u role
      → require_org_member w i o u db ≡ (db, ok role)
  unfolding require_org_member ◌>>=◌
  require_org_member-answer i u role h = rw (get_org_member_role-answer i u role h) refl

  org_target_role-answer :
      (i u : ℕ) (role : OrgRole)
      → HasOrgRole db o u role
      → org_target_role w i o u db ≡ (db, ok role)
  unfolding org_target_role ◌>>=◌
  org_target_role-answer i u role h = rw (get_org_member_role-answer i u role h) refl

  removal_checks-answer :
      (target requester : ℕ) (theirs mine : OrgRole)
      → HasOrgRole db o target theirs
      → HasOrgRole db o requester mine
      → is_org_owner theirs ≡ false
      → not (not (target == requester) && not (may_manage_members mine)) ≡ true
      → not (is_org_admin theirs && not (is_org_owner mine) && not (target == requester)) ≡ true
      → removal_checks w o target requester db ≡ (db, ok tt)
  unfolding removal_checks ◌>>=◌
  removal_checks-answer target requester theirs mine t r n a b =
      rw
        (
          require_org_member-answer 0 requester mine r,
          a,
          org_target_role-answer 1 target theirs t,
          n,
          b,
        )
        refl

  delete_org_member-answer :
      (i target : ℕ) (theirs : OrgRole)
      → HasOrgRole db o target theirs
      → delete_org_member w i o target db ≡ (
        record db {
          members = update_rows (is_active o target) (mark_deleted (w.clock i)) db.members;
        },
        ok tt,
      )
  unfolding delete_org_member change_active ◌>>=◌
  delete_org_member-answer i target theirs h =
      rw (calm i, found_any (is_active o target) db.members h.row h.found) refl

  removal_run :
      (target requester : ℕ) (theirs mine : OrgRole)
      → HasOrgRole db o target theirs
      → HasOrgRole db o requester mine
      → is_org_owner theirs ≡ false
      → (target ≡ requester)
        ⊎ ((may_manage_members mine ≡ true)
            × ((is_org_admin theirs && not (is_org_owner mine)) ≡ false))
      → remove_org_member w o target requester db ≡ (
        record db {
          members = update_rows (is_active o target) (mark_deleted (w.clock 2)) db.members;
        },
        ok tt,
      )
  unfolding remove_org_member ◌>>=◌
  removal_run target requester theirs mine t r n (inl self) =
      rw
        (
          removal_checks-answer target requester theirs mine t r n (ground arith) (ground arith),
          delete_org_member-answer 2 target theirs t,
        )
        refl
  removal_run target requester theirs mine t r n (inr (can, above)) =
      rw
        (
          removal_checks-answer target requester theirs mine t r n (ground arith) (ground arith),
          delete_org_member-answer 2 target theirs t,
        )
        refl

  -- The answer is no error, the member has no role in the organization any longer, everyone else
  -- has the role that they had, and of the tables only the member's active row has changed, which
  -- is marked as deleted at the time.
  abbrev pub IsTakenOut : ℕ → ℕ → Database × Result OrgError (Unit {0}) → Type 0
  IsTakenOut target now a =
      (a.1 ≡ ok tt)
      × Same (roles_of a.0.members) (assign (roles_of db.members) o target none)
      × (a.0 ≡ record db {
        members =
            update_rows (λ r. r.org_id == o && r.user_id == target && not r.is_soft_deleted)
              (λ r. record r { is_soft_deleted = true; deleted_at = some now }) db.members;
      })

  -- Where no call fails, a member who is not the owner is taken out of the organization, their row
  -- marked as deleted and nothing else changed, and the answer is no error, at the request of
  -- themself, or of an owner or an admin, where an admin may take out no other admin.
  pub remove_org_member-answer :
      (target requester : ℕ) (theirs mine : OrgRole)
      → HasOrgRole db o target theirs
      → HasOrgRole db o requester mine
      → is_org_owner theirs ≡ false
      → (target ≡ requester)
        ⊎ ((may_manage_members mine ≡ true)
            × ((is_org_admin theirs && not (is_org_owner mine)) ≡ false))
      → IsTakenOut target (w.clock 2) (remove_org_member w o target requester db)
  unfolding is_active mark_deleted
  remove_org_member-answer target requester theirs mine t r n k =
      let run = removal_run target requester theirs mine t r n k in
      subst (IsTakenOut target (w.clock 2)) (sym run)
        (refl, roles-mark_deleted o target (w.clock 2) db.members, refl)
