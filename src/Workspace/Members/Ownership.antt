-- ===== src/Workspace/Members/Ownership.antt =====
-- The ownership of a workspace under the changes of its members
-- (crates/app/src/features/workspace/use_case.rs).
use pairdbase.Common.{
  ℕ, ◌≡◌, ◌≢◌, Bool, true, false, ◌&&◌, Option, none, some, List, [], ◌∷◌, ◌++◌, Result, ok, arith,
  ◌==◌, ◌∙◌, sym, find, Option-cases, Bool-cases, inl, inr, >>=-eq-ok,
}
use pairdbase.Text.{Text, text_eq, match_text}
use pairdbase.Workspace.Domain.{
  MemberRole, owner, admin, member, viewer, role_as_str, is_owner, role_try_from, WorkspaceError,
}
use pairdbase.Workspace.Repository.{
  MemberRow, is_live, read_role, get_member_role, update_where, is_removable, soft_deleted,
}
use pairdbase.Workspace.Members.Table.{find-set, set-after, delete-after, add-after}
use pairdbase.Workspace.Members.Authority.{change_role-IsChange, HasRole}
use pairdbase.Workspace.Members.{
  Faults, update_checks, remove_checks, invite_checks, admit_member, remove_member, change_role,
}

-- The user is the owner of the workspace, as the table has it.
abbrev pub IsOwner : List MemberRow → ℕ → ℕ → Type 0
IsOwner table workspace_id user_id =
    get_member_role none table workspace_id user_id ≡ ok (some owner)

read_role-owner :
    (r : MemberRow)
    → read_role (some r) ≡ ok (some owner)
    → text_eq r.role (role_as_str owner) ≡ true
unfolding read_role role_try_from match_text role_as_str
read_role-owner r h = ground arith

find-delete :
    (w t ws u now : ℕ) (table : List MemberRow) (r : MemberRow)
    → find (is_live ws u) table ≡ some r
    → text_eq r.role (role_as_str owner) ≡ true
    → find (is_live ws u) (update_where (is_removable w t) (soft_deleted now) table) ≡ some r
unfolding is_live is_removable update_where soft_deleted
find-delete w t ws u now [] r h o = cc
find-delete w t ws u now (x ∷ xs) r h o = ground (arith, find-delete w t ws u now xs r)

find-append :
    (p : MemberRow → Bool) (table more : List MemberRow) (r : MemberRow)
    → find p table ≡ some r
    → find p (table ++ more) ≡ some r
find-append p [] more r h = cc
find-append p (x ∷ xs) more r h = ground (arith, find-append p xs more r)

read_role-same :
    (o p : Option MemberRow) → o ≡ p → read_role o ≡ ok (some owner) → read_role p ≡ ok (some owner)
read_role-same o p e h = rw (← e) h

-- A change to the members of any workspace, whoever asks for it and whatever faults there are.
pub data Change (table : List MemberRow) : List MemberRow → Type 0 where
  changes :
      (fault : Faults) (workspace_id target : ℕ) (role : Text) (requester now : ℕ)
      (after : List MemberRow)
      → change_role fault table workspace_id target role requester now ≡ ok after
      → Change table after
  removes :
      (fault : Faults) (workspace_id target requester now : ℕ) (after : List MemberRow)
      → remove_member fault table workspace_id target requester now ≡ ok after
      → Change table after
  admits :
      (fault : Faults) (workspace_id : ℕ) (email role : Text) (requester : ℕ)
      (found : Result WorkspaceError (Option ℕ)) (after : List MemberRow)
      → admit_member fault table workspace_id email role requester found ≡ ok after
      → Change table after

none_is_no_owner : read_role none ≢ ok (some owner)
unfolding read_role
none_is_no_owner h = cc

owner_row :
    (table : List MemberRow) (ws u : ℕ)
    → IsOwner table ws u
    → (r : MemberRow) × (find (is_live ws u) table ≡ some r)
      × (text_eq r.role (role_as_str owner) ≡ true)
unfolding get_member_role
owner_row table ws u h = elim (Option-cases (find (is_live ws u) table)) [
  | inl e ↦ absurd (none_is_no_owner (read_role-same _ _ e h))
  | inr (r, e) ↦ (r, e, read_role-owner r (read_role-same _ _ e h))
]

keeps :
    (table after : List MemberRow) (ws u : ℕ)
    → ((r : MemberRow)
        → find (is_live ws u) table ≡ some r
        → text_eq r.role (role_as_str owner) ≡ true
        → find (is_live ws u) after ≡ some r)
    → IsOwner table ws u
    → IsOwner after ws u
unfolding get_member_role
keeps table after ws u k h =
    let (r, e, o) = owner_row table ws u h in read_role-same _ _ (e ∙ sym (k r e o)) h

same_role :
    (table : List MemberRow) (ws u w t : ℕ) (theirs : MemberRole)
    → HasRole table w t theirs
    → IsOwner table ws u
    → ws ≡ w
    → u ≡ t
    → theirs ≡ owner
same_role table ws u w t theirs h o e f = cc

not_owner : (theirs : MemberRole) → is_owner theirs ≡ false → theirs ≢ owner
unfolding is_owner
not_owner owner h e = cc
not_owner admin h e = cc
not_owner member h e = cc
not_owner viewer h e = cc

-- The target of a change is another than the owner.
apart :
    (table : List MemberRow) (ws u w t : ℕ) (theirs : MemberRole)
    → HasRole table w t theirs
    → is_owner theirs ≡ false
    → IsOwner table ws u
    → (ws == w && u == t) ≡ false
apart table ws u w t theirs h n o = elim (Bool-cases (ws == w && u == t)) [
  | inr e ↦ e
  | inl e ↦
      absurd
        (not_owner theirs n (same_role table ws u w t theirs h o (ground arith) (ground arith)))
]

-- Whoever changes a role, removes a member or admits one, in any workspace and with any faults of
-- the database: the owner of a workspace is its owner afterwards.
pub Change-IsOwner :
    (table after : List MemberRow) (ws u : ℕ)
    → Change table after
    → IsOwner table ws u
    → IsOwner after ws u
unfolding change_role remove_member admit_member
Change-IsOwner table _ ws u (changes fault w t role by now after h) o =
    let (new, a, c, m, k') = change_role-IsChange fault table w t role by now after h in
    let (new', b, d) = >>=-eq-ok (update_checks fault table w t role by) _ h in
    keeps table after ws u
      (λ r e k. rw (← set-after (fault 2) table after w t now new' d) (
        rw
          (find-set w t ws u now new' table
            (apart table ws u w t c.theirs c.target_member c.target_no_owner o))
          e))
      o
Change-IsOwner table _ ws u (removes fault w t by now after h) o =
    let (_, a, b) = >>=-eq-ok (remove_checks fault table w t by) _ h in
    keeps table after ws u
      (λ r e k.
        rw (← delete-after (fault 2) table after w t now b) (find-delete w t ws u now table r e k))
      o
Change-IsOwner table _ ws u (admits fault w email role by found after h) o =
    let (checked, a, b) = >>=-eq-ok (invite_checks fault table w email role by found) _ h in
    let c = add-after (fault 2) table after w checked.1 by checked.0 b in
    keeps table after ws u (λ r e k. rw (← c) (find-append (is_live ws u) table _ r e)) o
