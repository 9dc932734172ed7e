-- ===== src/Workspace/Members/Table.antt =====
-- The roles in the table of members after its statements
-- (crates/app/src/features/workspace/repository.rs).
use pairdbase.Common.{
  ℕ, ◌≡◌, ◌≢◌, refl, true, false, ◌&&◌, Option, none, some, List, [], ◌∷◌, ◌++◌, Result, ok, arith,
  ◌==◌, ◌∙◌, sym, ap, find, Option-cases, inl, inr, Result-cases,
}
use pairdbase.Text.{Text, text_eq, text_eq→≡}
use pairdbase.Workspace.Domain.{
  MemberRole, owner, role_as_str, role_try_from, role_try_from-as_str, WorkspaceError,
}
use pairdbase.Workspace.Repository.{
  MemberRow, is_live, read_role, get_member_role, add_member, new_member, update_where, with_role,
  set_member_role, is_removable, soft_deleted, delete_member,
}

-- Everyone else has the role that they had, in every workspace.
abbrev pub OthersKeep : List MemberRow → List MemberRow → ℕ → ℕ → Type 0
OthersKeep table after workspace_id user_id =
    (w u : ℕ)
    → (w == workspace_id && u == user_id) ≡ false
    → get_member_role none after w u ≡ get_member_role none table w u

pub find-set :
    (w t ws u now : ℕ) (role : MemberRole) (table : List MemberRow)
    → ((ws == w && u == t) ≡ false)
    → find (is_live ws u) (update_where (is_live w t) (with_role role now) table)
      ≡ find (is_live ws u) table
unfolding is_live update_where with_role
find-set w t ws u now role [] h = refl
find-set w t ws u now role (r ∷ rs) h = ground (arith, find-set w t ws u now role rs)

pub set-after :
    (fault : Option Text) (table after : List MemberRow) (w t now : ℕ) (role : MemberRole)
    → set_member_role fault table w t role now ≡ ok after
    → update_where (is_live w t) (with_role role now) table ≡ after
unfolding set_member_role
set-after none table after w t now role h = ground arith
set-after (some e) table after w t now role h = cc

pub delete-after :
    (fault : Option Text) (table after : List MemberRow) (w t now : ℕ)
    → delete_member fault table w t now ≡ ok after
    → update_where (is_removable w t) (soft_deleted now) table ≡ after
unfolding delete_member
delete-after none table after w t now h = ground arith
delete-after (some e) table after w t now h = cc

pub add-after :
    (fault : Option Text) (table after : List MemberRow) (w t by : ℕ) (role : MemberRole)
    → add_member fault table w t role by ≡ ok after
    → (table ++ new_member w t role by ∷ []) ≡ after
unfolding add_member
add-after none table after w t by role h = ground arith
add-after (some e) table after w t by role h = cc

set_there :
    (w t now : ℕ) (role : MemberRole) (table : List MemberRow) (r : MemberRow)
    → find (is_live w t) table ≡ some r
    → find (is_live w t) (update_where (is_live w t) (with_role role now) table)
      ≡ some (with_role role now r)
unfolding is_live update_where with_role
set_there w t now role [] r h = cc
set_there w t now role (x ∷ xs) r h = ground (arith, set_there w t now role xs r)

delete_elsewhere :
    (w t ws u now : ℕ) (table : List MemberRow)
    → (ws == w && u == t) ≡ false
    → find (is_live ws u) (update_where (is_removable w t) (soft_deleted now) table)
      ≡ find (is_live ws u) table
unfolding is_live is_removable update_where soft_deleted
delete_elsewhere w t ws u now [] h = refl
delete_elsewhere w t ws u now (r ∷ rs) h = ground (arith, delete_elsewhere w t ws u now rs)

delete_there :
    (w t now : ℕ) (table : List MemberRow) (r : MemberRow)
    → find (is_live w t) (update_where (is_removable w t) (soft_deleted now) table) ≡ some r
    → text_eq r.role (role_as_str owner) ≡ true
unfolding is_live is_removable update_where soft_deleted
delete_there w t now [] r h = cc
delete_there w t now (x ∷ xs) r h = ground (arith, delete_there w t now xs r)

add_there :
    (w t by : ℕ) (role : MemberRole) (table : List MemberRow)
    → find (is_live w t) table ≡ none
    → find (is_live w t) (table ++ new_member w t role by ∷ []) ≡ some (new_member w t role by)
unfolding is_live
add_there w t by role [] h = ground arith
add_there w t by role (x ∷ xs) h = ground (arith, add_there w t by role xs)

add_elsewhere :
    (w t ws u by : ℕ) (role : MemberRole) (table : List MemberRow)
    → (ws == w && u == t) ≡ false
    → find (is_live ws u) (table ++ new_member w t role by ∷ []) ≡ find (is_live ws u) table
unfolding is_live
add_elsewhere w t ws u by role [] h = ground arith
add_elsewhere w t ws u by role (x ∷ xs) h = ground (arith, add_elsewhere w t ws u by role xs)

read_role-some :
    (r : MemberRow) (role : MemberRole)
    → r.role ≡ role_as_str role
    → read_role (some r) ≡ ok (some role)
unfolding read_role
read_role-some r role h = let e = ap role_try_from h ∙ role_try_from-as_str role in ground arith

none_has_no_role : (role : MemberRole) → read_role none ≢ ok (some role)
unfolding read_role
none_has_no_role role h = cc

some_has_a_role : (r : MemberRow) → read_role (some r) ≢ ok none
unfolding read_role
some_has_a_role r h = elim (Result-cases (role_try_from r.role)) [
  | inl (a, e) ↦ ground arith
  | inr (x, e) ↦ ground arith
]

row_of :
    (table : List MemberRow) (w t : ℕ) (role : MemberRole)
    → get_member_role none table w t ≡ ok (some role)
    → (r : MemberRow) × (find (is_live w t) table ≡ some r)
unfolding get_member_role
row_of table w t role h = elim (Option-cases (find (is_live w t) table)) [
  | inl e ↦ absurd (none_has_no_role role (ap read_role (sym e) ∙ h))
  | inr found ↦ found
]

no_row :
    (table : List MemberRow) (w t : ℕ)
    → get_member_role none table w t ≡ ok none
    → find (is_live w t) table ≡ none
unfolding get_member_role
no_row table w t h = elim (Option-cases (find (is_live w t) table)) [
  | inl e ↦ e
  | inr (r, e) ↦ absurd (some_has_a_role r (ap read_role (sym e) ∙ h))
]

some_ok :
    (a b : MemberRole)
    → ◌≡◌ {A = Result WorkspaceError (Option MemberRole)} (ok (some a)) (ok (some b))
    → a ≡ b
some_ok a b h = cc

-- What each statement makes of the roles.
pub set-role :
    (fault : Option Text) (table after : List MemberRow) (w t now : ℕ) (role theirs : MemberRole)
    → get_member_role none table w t ≡ ok (some theirs)
    → set_member_role fault table w t role now ≡ ok after
    → (get_member_role none after w t ≡ ok (some role)) × OthersKeep table after w t
unfolding get_member_role with_role
set-role fault table after w t now role theirs m h =
    let (r, found) = row_of table w t theirs m in
    let changed = set-after fault table after w t now role h in
    (
      ap (λ z. read_role (find (is_live w t) z)) (sym changed)
          ∙ ap read_role (set_there w t now role table r found)
          ∙ read_role-some (with_role role now r) role refl,
      λ ws u n.
          ap (λ z. read_role (find (is_live ws u) z)) (sym changed)
          ∙ ap read_role (find-set w t ws u now role table n),
    )

pub delete-role :
    (fault : Option Text) (table after : List MemberRow) (w t now : ℕ)
    → delete_member fault table w t now ≡ ok after
    → ((role : MemberRole) → get_member_role none after w t ≡ ok (some role) → role ≡ owner)
      × OthersKeep table after w t
unfolding get_member_role
delete-role fault table after w t now h =
    let changed = delete-after fault table after w t now h in
    (
      λ role m.
          let (r, found) = row_of after w t role m in
          let is_text =
            text_eq→≡ r.role (role_as_str owner)
              (delete_there w t now table r (ap (find (is_live w t)) changed ∙ found)) in
          let same = sym (read_role-some r owner is_text) ∙ ap read_role (sym found) ∙ m in
          sym (some_ok owner role same),
      λ ws u n.
          ap (λ z. read_role (find (is_live ws u) z)) (sym changed)
          ∙ ap read_role (delete_elsewhere w t ws u now table n),
    )

pub add-role :
    (fault : Option Text) (table after : List MemberRow) (w t by : ℕ) (role : MemberRole)
    → get_member_role none table w t ≡ ok none
    → add_member fault table w t role by ≡ ok after
    → (get_member_role none after w t ≡ ok (some role)) × OthersKeep table after w t
unfolding get_member_role
add-role fault table after w t by role m h =
    let changed = add-after fault table after w t by role h in
    (
      ap (λ z. read_role (find (is_live w t) z)) (sym changed)
          ∙ ap read_role (add_there w t by role table (no_row table w t m))
          ∙ read_role-some (new_member w t role by) role refl,
      λ ws u n.
          ap (λ z. read_role (find (is_live ws u) z)) (sym changed)
          ∙ ap read_role (add_elsewhere w t ws u by role table n),
    )
