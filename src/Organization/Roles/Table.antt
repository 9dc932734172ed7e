-- ===== src/Organization/Roles/Table.antt =====
-- The roles of a table of members whose rows are changed or added
-- (crates/app/src/features/organization/repository.rs).
use pairdbase.Common.{
  Bool-cases, inl, inr, ==-refl, ℕ, ◌≡◌, refl, Bool, false, ◌&&◌, none, some, List, [], ◌∷◌, ◌++◌,
  any_of, ◌==◌, arith, update_rows, Every,
}
use pairdbase.Text.{Text}
use pairdbase.Organization.Domain.{OrgRole, org_role_as_str}
use pairdbase.Organization.Rows.{OrgMemberRow}
use pairdbase.Organization.Repository.Members.{is_active, is_indexed, with_org_role, mark_deleted}
use pairdbase.Organization.Roles.{roles_of, assign, Same, IsMarked}

set_there :
    (o t now : ℕ) (new : OrgRole) (rows : List OrgMemberRow) (theirs : Text)
    → roles_of rows o t ≡ some theirs
    → roles_of (update_rows (is_active o t) (with_org_role new now) rows) o t
      ≡ some (org_role_as_str new)
unfolding roles_of is_active with_org_role
set_there o t now new [] theirs h = cc
set_there o t now new (r ∷ rs) theirs h = ground (arith, set_there o t now new rs theirs)

set_elsewhere :
    (o t now : ℕ) (new : OrgRole) (rows : List OrgMemberRow) (p q : ℕ)
    → (p == o && q == t) ≡ false
    → roles_of (update_rows (is_active o t) (with_org_role new now) rows) p q ≡ roles_of rows p q
unfolding roles_of is_active with_org_role
set_elsewhere o t now new [] p q n = refl
set_elsewhere o t now new (r ∷ rs) p q n = ground (arith, set_elsewhere o t now new rs p q)

pub roles-with_org_role :
    (o t now : ℕ) (new : OrgRole) (rows : List OrgMemberRow) (theirs : Text)
    → roles_of rows o t ≡ some theirs
    → Same
        (roles_of (update_rows (is_active o t) (with_org_role new now) rows))
        (assign (roles_of rows) o t (some (org_role_as_str new)))
unfolding assign
roles-with_org_role o t now new rows theirs h p q = elim (Bool-cases (p == o && q == t)) [
  | inl here ↦
      (let at_o : p ≡ o = ground arith in
        let at_t : q ≡ t = ground arith in
        rw (at_o, at_t, ==-refl o, ==-refl t) (set_there o t now new rows theirs h))
  | inr n ↦ rw n (set_elsewhere o t now new rows p q n)
]

pub roles-mark_deleted :
    (o t now : ℕ) (rows : List OrgMemberRow)
    → Same
        (roles_of (update_rows (is_active o t) (mark_deleted now) rows))
        (assign (roles_of rows) o t none)
unfolding roles_of is_active mark_deleted assign
roles-mark_deleted o t now [] p q = ground arith
roles-mark_deleted o t now (r ∷ rs) p q = ground (arith, roles-mark_deleted o t now rs p q)

pub roles-append :
    (rows : List OrgMemberRow) (new : OrgMemberRow)
    → Every IsMarked rows
    → any_of (is_indexed new.org_id new.user_id) rows ≡ false
    → new.is_soft_deleted ≡ false
    → Same
        (roles_of (rows ++ new ∷ []))
        (assign (roles_of rows) new.org_id new.user_id (some new.role))
unfolding roles_of is_active is_indexed assign
roles-append [] new m n s p q = ground arith
roles-append (r ∷ rs) new m n s p q =
    ground (arith, m.0, roles-append rs new m.1 (ground arith) s p q)

pub unindexed :
    (rows : List OrgMemberRow) (o u : ℕ)
    → Every IsMarked rows
    → any_of (is_indexed o u) rows ≡ false
    → roles_of rows o u ≡ none
unfolding roles_of is_active is_indexed
unindexed [] o u m n = refl
unindexed (r ∷ rs) o u m n = ground (arith, m.0, unindexed rs o u m.1)

pub IsMarked-update :
    (p : OrgMemberRow → Bool) (f : OrgMemberRow → OrgMemberRow) (rows : List OrgMemberRow)
    → ((r : OrgMemberRow) → IsMarked r → IsMarked (f r))
    → Every IsMarked rows
    → Every IsMarked (update_rows p f rows)
IsMarked-update p f [] k m = tt
IsMarked-update p f (r ∷ rs) k m = (
  elim (Bool-cases (p r)) [ inl e ↦ rw e (k r m.0) | inr e ↦ rw e m.0 ],
  IsMarked-update p f rs k m.1,
)
