-- ===== src/Organization/Roles/Refinement.antt =====
-- The requests of crates/app/src/features/organization/use_case.rs refine the steps of the roles.
use pairdbase.Common.{
  ℕ, ◌≡◌, refl, false, true, ◌&&◌, Option, none, some, List, [], ◌∷◌, ok, ◌==◌, arith, ap, ◌∙◌, sym,
  map_err-eq-ok, ok_or-eq-ok, Every, append-Every, Bool-cases, inl, inr,
}
use pairdbase.Text.{Text, match_text, match_text-name}
use pairdbase.Organization.Domain.{
  OrgRole, org_owner, org_role_as_str, is_org_owner, org_role_arms, org_role_try_from,
  org_role_try_from-org_role_as_str,
}
use pairdbase.Organization.Rows.{OrgMemberRow}
use pairdbase.Organization.Database.{Database, Environment}
use pairdbase.Organization.Repository.Members.{
  is_active, read_org_role, mark_deleted, with_org_role,
}
use pairdbase.Organization.Requests.{Request, asker, after}
use pairdbase.Organization.Writes.{
  HasOrgRole, ManagesOrg, Write, unchanged, role_set, member_removed, organization_added,
  settings_changed, credits_used, invitation_accepted, invitation_revoked,
}
use pairdbase.Organization.Writes.Requests.{after-Write}
use pairdbase.Organization.Roles.{
  Roles, role_of, roles_of, assign, MayManage, RoleStep, stays, changed, removed, joined, IsMarked,
  IsConsistent, after_all,
}
use pairdbase.Organization.Roles.Table.{
  roles-with_org_role, roles-mark_deleted, roles-append, unindexed, IsMarked-update,
}

arms_name : Every (λ arm. arm.0 ≡ org_role_as_str arm.1) org_role_arms
unfolding org_role_as_str
arms_name = (refl, (refl, (refl, tt)))

read_org_role-role :
    (r : OrgMemberRow) (role : OrgRole) → read_org_role r ≡ ok role → r.role ≡ org_role_as_str role
unfolding read_org_role org_role_try_from
read_org_role-role r role h =
    match_text-name org_role_as_str r.role org_role_arms role arms_name
      (ok_or-eq-ok (match_text r.role org_role_arms) _ (map_err-eq-ok _ _ h))

has_role :
    (db : Database) (o u : ℕ) (role : OrgRole)
    → HasOrgRole db o u role
    → roles_of db.members o u ≡ some (org_role_as_str role)
unfolding roles_of
has_role db o u role h = ap role_of h.found ∙ ap some (read_org_role-role h.row role h.read)

may_manage :
    (db : Database) (o u : ℕ) (theirs : OrgRole)
    → ManagesOrg db o u theirs
    → MayManage (roles_of db.members) o u theirs
may_manage db o u theirs m = record {
  mine = m.mine;
  has = has_role db o u m.mine m.is_member;
  manages = m.manages;
  above = m.above;
}

Write-RoleStep :
    {asker : Option ℕ} (db end : Database)
    → IsConsistent db
    → Write asker db end
    → RoleStep asker (roles_of db.members) (roles_of end.members)
Write-RoleStep db _ c unchanged = stays (λ o u. refl)
Write-RoleStep db _ c (role_set o t by now new theirs s a b d m) =
    changed o t by new theirs s (has_role db o t theirs a) b d (may_manage db o by theirs m)
      (roles-with_org_role o t now new db.members _ (has_role db o t theirs a))
Write-RoleStep db _ c (member_removed o t by now theirs s a b m) =
    removed o t by theirs s (has_role db o t theirs a) b (λ n. may_manage db o by theirs (m n))
      (roles-mark_deleted o t now db.members)
Write-RoleStep db _ c (organization_added row a b d) = stays (λ o u. refl)
Write-RoleStep db _ c (settings_changed old new a b d) = stays (λ o u. refl)
Write-RoleStep db _ c (credits_used o amount now a) = stays (λ o u. refl)
Write-RoleStep db _ c (invitation_accepted token i m now a b d e live kept) =
    joined m.org_id m.user_id m.role (unindexed db.members m.org_id m.user_id c b)
      (roles-append db.members m c b live)
Write-RoleStep db _ c (invitation_revoked id now) = stays (λ o u. refl)

-- On tables where no row that is not deleted has a time of deletion, the request of a user does to
-- the roles what the steps allow that user: it leaves them, or it gives another role than owner to a
-- member who is not the owner, or takes such a member out, where the user may manage them (or, for a
-- removal, is that member), or takes in one who is no member.
pub after-RoleStep :
    (w : Environment) (r : Request) (db : Database)
    → IsConsistent db
    → RoleStep (asker r) (roles_of db.members) (roles_of (after w r db).members)
after-RoleStep w r db c = Write-RoleStep db (after w r db) c (after-Write w r db)

Write-IsConsistent :
    {asker : Option ℕ} (db end : Database) → IsConsistent db → Write asker db end → IsConsistent end
unfolding with_org_role mark_deleted
Write-IsConsistent db _ c unchanged = c
Write-IsConsistent db _ c (role_set o t by now new theirs s a b d m) =
    IsMarked-update (is_active o t) (with_org_role new now) db.members (λ r k. k) c
Write-IsConsistent db _ c (member_removed o t by now theirs s a b m) =
    IsMarked-update (is_active o t) (mark_deleted now) db.members (λ r k. refl) c
Write-IsConsistent db _ c (organization_added row a b d) = c
Write-IsConsistent db _ c (settings_changed old new a b d) = c
Write-IsConsistent db _ c (credits_used o amount now a) = c
Write-IsConsistent db _ c (invitation_accepted token i m now a b d e live kept) =
    append-Every IsMarked db.members (m ∷ []) c (ground arith, tt)
Write-IsConsistent db _ c (invitation_revoked id now) = c

pub after-IsConsistent :
    (w : Environment) (r : Request) (db : Database) → IsConsistent db → IsConsistent (after w r db)
after-IsConsistent w r db c = Write-IsConsistent db (after w r db) c (after-Write w r db)

-- The user is the owner of the organization.
abbrev pub IsOrgOwner : Roles → ℕ → ℕ → Type 0
IsOrgOwner roles o u = roles o u ≡ some (org_role_as_str org_owner)

abbrev text_of : Option Text → Text
text_of none = []
text_of (some t) = t

owner_is_owner :
    (theirs : OrgRole)
    → some (org_role_as_str org_owner) ≡ some (org_role_as_str theirs)
    → is_org_owner theirs ≡ true
unfolding is_org_owner
owner_is_owner theirs h =
    let texts : org_role_as_str org_owner ≡ org_role_as_str theirs = ap text_of h in
    let roles =
      sym (org_role_try_from-org_role_as_str org_owner)
      ∙ ap org_role_try_from texts
      ∙ org_role_try_from-org_role_as_str theirs in
    let same : org_owner ≡ theirs = cc in ap is_org_owner (sym same)

assign-IsOrgOwner :
    (a : Roles) (x t : ℕ) (new : Option Text) (theirs : OrgRole) (o u : ℕ)
    → a x t ≡ some (org_role_as_str theirs)
    → is_org_owner theirs ≡ false
    → IsOrgOwner a o u
    → IsOrgOwner (assign a x t new) o u
unfolding assign
assign-IsOrgOwner a x t new theirs o u e n h = elim (Bool-cases (o == x && u == t)) [
  | inl here ↦
      (let at_x : o ≡ x = ground arith in
        let at_t : u ≡ t = ground arith in
        let same : a o u ≡ a x t = cc in
        let other = owner_is_owner theirs (sym h ∙ same ∙ e) in absurd (ground arith))
  | inr k ↦ rw k h
]

RoleStep-IsOrgOwner :
    {asker : Option ℕ} (a b : Roles) (o u : ℕ)
    → RoleStep asker a b
    → IsOrgOwner a o u
    → IsOrgOwner b o u
unfolding assign
RoleStep-IsOrgOwner a b o u (stays s) h = s o u ∙ h
RoleStep-IsOrgOwner a b o u (changed x t by new theirs asks e n m may s) h =
    s o u ∙ assign-IsOrgOwner a x t _ theirs o u e n h
RoleStep-IsOrgOwner a b o u (removed x t by theirs asks e n may s) h =
    s o u ∙ assign-IsOrgOwner a x t _ theirs o u e n h
RoleStep-IsOrgOwner a b o u (joined x t role e s) h = elim (Bool-cases (o == x && u == t)) [
  | inl here ↦
      (let at_x : o ≡ x = ground arith in
        let at_t : u ≡ t = ground arith in let same : a o u ≡ a x t = cc in absurd cc)
  | inr n ↦ s o u ∙ rw n h
]

-- Whoever asks for what, one request after another: the owner of an organization stays its owner,
-- on tables where no row that is not deleted has a time of deletion.
pub after_all-IsOrgOwner :
    (requests : List (Environment × Request)) (db : Database) (o u : ℕ)
    → IsConsistent db
    → IsOrgOwner (roles_of db.members) o u
    → IsOrgOwner (roles_of (after_all requests db).members) o u
unfolding after_all
after_all-IsOrgOwner [] db o u c h = h
after_all-IsOrgOwner ((w, r) ∷ more) db o u c h =
    after_all-IsOrgOwner more (after w r db) o u (after-IsConsistent w r db c) (
      RoleStep-IsOrgOwner (roles_of db.members) (roles_of (after w r db).members) o u
        (after-RoleStep w r db c) h)
