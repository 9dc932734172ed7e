-- ===== src/Workspace/Members/Authority.antt =====
-- What a change of the members of a workspace says of who made it
-- (crates/app/src/features/workspace/use_case.rs).
use pairdbase.Common.{
  ℕ, ◌≡◌, refl, ◌⊎◌, inl, inr, Bool, true, false, not, ◌&&◌, ◌>>◌, Option, none, some, List, Result,
  ok, arith, ◌==◌, Bool-cases, ap, ◌∙◌, ok_or, >>=-eq-ok, ok_or-eq-ok,
}
use pairdbase.Text.{Text}
use pairdbase.Workspace.Domain.{
  MemberRole, owner, is_owner, is_admin, can_manage_members, role_try_from, WorkspaceError,
  user_not_found, already_member,
}
use pairdbase.Workspace.Repository.{MemberRow, get_member_role, add_member}
use pairdbase.Workspace.Members.Table.{OthersKeep, set-role, delete-role, add-role}
use pairdbase.Workspace.Members.{
  Faults, ensure, not_member, require_member, target_role, update_checks, remove_checks,
  invite_checks, admit_member, remove_member, change_role,
}

abbrev pub HasRole : List MemberRow → ℕ → ℕ → MemberRole → Type 0
HasRole table workspace_id user_id role =
    get_member_role none table workspace_id user_id ≡ ok (some role)

-- The user is an owner or an admin of the workspace, and its owner where the other role is admin.
pub record Manages (table : List MemberRow) (workspace_id user_id : ℕ) (theirs : MemberRole)
    : Type 0 where
  pub mine : MemberRole
  pub is_member : HasRole table workspace_id user_id mine
  pub manages : can_manage_members mine ≡ true
  pub above : is_admin theirs ≡ true → is_owner mine ≡ true

get_member_role-fault :
    (fault : Option Text) (table : List MemberRow) (ws u : ℕ) (o : Option MemberRole)
    → get_member_role fault table ws u ≡ ok o
    → get_member_role none table ws u ≡ ok o
unfolding get_member_role
get_member_role-fault none table ws u o h = h
get_member_role-fault (some e) table ws u o h = cc

pub require_member-HasRole :
    (fault : Option Text) (table : List MemberRow) (ws u : ℕ) (r : MemberRole)
    → require_member fault table ws u ≡ ok r
    → HasRole table ws u r
unfolding require_member
require_member-HasRole fault table ws u r h =
    let (o, a, b) = >>=-eq-ok (get_member_role fault table ws u) _ h in
    get_member_role-fault fault table ws u (some r) (ground arith)

target_role-HasRole :
    (fault : Option Text) (table : List MemberRow) (ws u : ℕ) (r : MemberRole)
    → target_role fault table ws u ≡ ok r
    → HasRole table ws u r
unfolding target_role
target_role-HasRole fault table ws u r h =
    let (o, a, b) = >>=-eq-ok (get_member_role fault table ws u) _ h in
    get_member_role-fault fault table ws u (some r) (ground arith)

ensure-ok :
    {A : Type 0} (b : Bool) (e : WorkspaceError) (m : Result WorkspaceError A) {y : A}
    → (ensure b e >> m) ≡ ok y
    → (b ≡ true) × (m ≡ ok y)
ensure-ok true e m h = (refl, h)
ensure-ok false e m h = cc

absent_ok :
    {A : Type 0} (present : Option MemberRole) (m : Result WorkspaceError A) {y : A}
    → (ensure (not_member present) already_member >> m) ≡ ok y
    → (present ≡ none) × (m ≡ ok y)
absent_ok none m h = (refl, h)
absent_ok (some role) m h = cc

module _ (fault : Faults) (table : List MemberRow) (workspace_id : ℕ) where
  -- The target of a change is a member who is not the owner, and the requester stands above them.
  pub record IsChange (target requester : ℕ) (new : MemberRole) : Type 0 where
    pub theirs : MemberRole
    pub target_member : HasRole table workspace_id target theirs
    pub target_no_owner : is_owner theirs ≡ false
    pub new_no_owner : is_owner new ≡ false
    pub by : Manages table workspace_id requester theirs

  pub update_checks-IsChange :
      (target : ℕ) (role : Text) (requester : ℕ) (new : MemberRole)
      → update_checks fault table workspace_id target role requester ≡ ok new
      → IsChange target requester new
  unfolding update_checks
  update_checks-IsChange target role requester new h =
      let (mine, a, h1) = >>=-eq-ok (require_member (fault 0) table workspace_id requester) _ h in
      let (b, h2) = ensure-ok (can_manage_members mine) _ _ h1 in
      let (r, c, h3) = >>=-eq-ok (role_try_from role) _ h2 in
      let (d, h4) = ensure-ok (not (is_owner r)) _ _ h3 in
      let (theirs, e, h5) = >>=-eq-ok (target_role (fault 1) table workspace_id target) _ h4 in
      let (f, h6) = ensure-ok (not (is_owner theirs)) _ _ h5 in
      let (g, h7) = ensure-ok (not (is_admin theirs && not (is_owner mine))) _ _ h6 in
      let same : r ≡ new = cc in
      record {
        theirs = theirs;
        target_member = target_role-HasRole (fault 1) table workspace_id target theirs e;
        target_no_owner = ground arith;
        new_no_owner = ground arith;
        by = record {
          mine = mine;
          is_member = require_member-HasRole (fault 0) table workspace_id requester mine a;
          manages = b;
          above = λ k. ground arith;
        };
      }

  update_checks-role :
      (target : ℕ) (role : Text) (requester : ℕ) (new : MemberRole)
      → update_checks fault table workspace_id target role requester ≡ ok new
      → role_try_from role ≡ ok new
  unfolding update_checks
  update_checks-role target role requester new a =
      let (mine, c, h1) = >>=-eq-ok (require_member (fault 0) table workspace_id requester) _ a in
      let (d, h2) = ensure-ok (can_manage_members mine) _ _ h1 in
      let (r, e, h3) = >>=-eq-ok (role_try_from role) _ h2 in
      let (f, h4) = ensure-ok (not (is_owner r)) _ _ h3 in
      let (theirs, g, h5) = >>=-eq-ok (target_role (fault 1) table workspace_id target) _ h4 in
      let (k, h6) = ensure-ok (not (is_owner theirs)) _ _ h5 in
      let (l, h7) = ensure-ok (not (is_admin theirs && not (is_owner mine))) _ _ h6 in
      let same : r ≡ new = cc in cc

  -- Only an owner or an admin changes a role, never that of the owner and never to owner, and only
  -- the owner that of an admin; the target has the requested role afterwards, and everyone else the
  -- role that they had, in every workspace.
  pub change_role-IsChange :
      (target : ℕ) (role : Text) (requester now : ℕ) (after : List MemberRow)
      → change_role fault table workspace_id target role requester now ≡ ok after
      → (new : MemberRole) × (role_try_from role ≡ ok new)
        × IsChange target requester new
        × HasRole after workspace_id target new
        × OthersKeep table after workspace_id target
  unfolding change_role
  change_role-IsChange target role requester now after h =
      let (new, a, b) =
        >>=-eq-ok (update_checks fault table workspace_id target role requester) _ h in
      let change = update_checks-IsChange target role requester new a in
      let (there, elsewhere) =
        set-role (fault 2) table after workspace_id target now new change.theirs
          change.target_member b in
      (new, update_checks-role target role requester new a, change, there, elsewhere)

  -- The target of a removal is a member who is not the owner, and leaves by themself or is
  -- removed by one who stands above them.
  pub record IsRemoval (target requester : ℕ) : Type 0 where
    pub theirs : MemberRole
    pub target_member : HasRole table workspace_id target theirs
    pub target_no_owner : is_owner theirs ≡ false
    pub by : (target ≡ requester) ⊎ Manages table workspace_id requester theirs

  remove_checks-IsRemoval :
      (target requester : ℕ)
      → remove_checks fault table workspace_id target requester ≡ ok tt
      → IsRemoval target requester
  unfolding remove_checks
  remove_checks-IsRemoval target requester a =
      let (mine, c, h1) = >>=-eq-ok (require_member (fault 0) table workspace_id requester) _ a in
      let (d, h2) =
        ensure-ok (not (not (target == requester) && not (can_manage_members mine))) _ _ h1 in
      let (theirs, e, h3) = >>=-eq-ok (target_role (fault 1) table workspace_id target) _ h2 in
      let (f, h4) = ensure-ok (not (is_owner theirs)) _ _ h3 in
      record {
        theirs = theirs;
        target_member = target_role-HasRole (fault 1) table workspace_id target theirs e;
        target_no_owner = ground arith;
        by = elim (Bool-cases (target == requester)) [
          | inl self ↦ inl (ground arith)
          | inr another ↦ inr (record {
            mine = mine;
            is_member = require_member-HasRole (fault 0) table workspace_id requester mine c;
            manages = ground arith;
            above = λ k. ground arith;
          })
        ];
      }

  -- A member who is not the owner may leave; otherwise only an owner or an admin removes a member,
  -- never the owner, and only the owner removes an admin. Afterwards the member has no role in the
  -- workspace, unless a further row of the table makes them owner; everyone else has the role that
  -- they had, in every workspace.
  pub remove_member-IsRemoval :
      (target requester now : ℕ) (after : List MemberRow)
      → remove_member fault table workspace_id target requester now ≡ ok after
      → IsRemoval target requester
        × ((role : MemberRole) → HasRole after workspace_id target role → role ≡ owner)
        × OthersKeep table after workspace_id target
  unfolding remove_member
  remove_member-IsRemoval target requester now after h =
      let (_, a, b) = >>=-eq-ok (remove_checks fault table workspace_id target requester) _ h in
      let (gone, elsewhere) = delete-role (fault 2) table after workspace_id target now b in
      (remove_checks-IsRemoval target requester a, gone, elsewhere)

  -- The new member was found by the address and was no member before, the new role is not owner,
  -- and the requester stands above it.
  pub record IsAdmission (requester : ℕ) (role : Text) (found : Result WorkspaceError (Option ℕ))
      : Type 0 where
    pub new : MemberRole
    pub new_role : role_try_from role ≡ ok new
    pub new_no_owner : is_owner new ≡ false
    pub invitee : ℕ
    pub invitee_found : found ≡ ok (some invitee)
    pub no_member : get_member_role none table workspace_id invitee ≡ ok none
    pub by : Manages table workspace_id requester new

  invite_checks-IsAdmission :
      (email role : Text) (requester : ℕ) (found : Result WorkspaceError (Option ℕ))
      (checked : MemberRole × ℕ)
      → invite_checks fault table workspace_id email role requester found ≡ ok checked
      → (by : IsAdmission requester role found) × (checked.0 ≡ by.new) × (checked.1 ≡ by.invitee)
  unfolding invite_checks
  invite_checks-IsAdmission email role requester found checked a =
      let (mine, c, h1) = >>=-eq-ok (require_member (fault 0) table workspace_id requester) _ a in
      let (d, h2) = ensure-ok (can_manage_members mine) _ _ h1 in
      let (new, e, h3) = >>=-eq-ok (role_try_from role) _ h2 in
      let (f, h4) = ensure-ok (not (is_owner new)) _ _ h3 in
      let (g, h5) = ensure-ok (not (is_admin new && not (is_owner mine))) _ _ h4 in
      let (user, k, h6) = >>=-eq-ok found _ h5 in
      let (invitee, l, h7) = >>=-eq-ok (ok_or user (user_not_found email)) _ h6 in
      let (present, n, h8) =
        >>=-eq-ok (get_member_role (fault 1) table workspace_id invitee) _ h7 in
      let (gone, last) = absent_ok present _ h8 in
      (
        record {
          new = new;
          new_role = e;
          new_no_owner = ground arith;
          invitee = invitee;
          invitee_found = k ∙ ap ok (ok_or-eq-ok user _ l);
          no_member =
              get_member_role-fault (fault 1) table workspace_id invitee none (n ∙ ap ok gone);
          by = record {
            mine = mine;
            is_member = require_member-HasRole (fault 0) table workspace_id requester mine c;
            manages = d;
            above = λ q. ground arith;
          };
        },
        cc,
        cc,
      )

  -- Only an owner or an admin admits a member, only one who is none yet and never as owner, and
  -- only the owner admits an admin; the new member has the requested role afterwards, and everyone
  -- else the role that they had, in every workspace.
  pub admit_member-IsAdmission :
      (email role : Text) (requester : ℕ) (found : Result WorkspaceError (Option ℕ))
      (after : List MemberRow)
      → admit_member fault table workspace_id email role requester found ≡ ok after
      → (by : IsAdmission requester role found) × HasRole after workspace_id by.invitee by.new
        × OthersKeep table after workspace_id by.invitee
  unfolding admit_member
  admit_member-IsAdmission email role requester found after h =
      let (checked, a, b) =
        >>=-eq-ok (invite_checks fault table workspace_id email role requester found) _ h in
      let (by, r, u) = invite_checks-IsAdmission email role requester found checked a in
      let added : add_member (fault 2) table workspace_id by.invitee by.new requester ≡ ok after =
        cc in
      let (there, elsewhere) =
        add-role (fault 2) table after workspace_id by.invitee requester by.new by.no_member
          added in
      (by, there, elsewhere)
