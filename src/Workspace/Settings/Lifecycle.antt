-- ===== src/Workspace/Settings/Lifecycle.antt =====
-- What the creation and the deletion of a workspace do (crates/app/src/features/workspace).
use pairdbase.Common.{
  Option, ℕ, ◌≡◌, refl, true, false, none, some, List, [], ◌∷◌, ◌++◌, ok, find, any_of, ◌==◌, arith,
  update_rows, ap, ◌∙◌, subst,
}
use pairdbase.Common.Actions.{
  ◌>>=◌, Reads, bind-ok, bind-state, at_state-ok, require-ok, require-Reads, return-Reads,
  bind-Reads, get_state-Reads, lift-Reads,
}
use pairdbase.Text.{match_text}
use pairdbase.Workspace.Domain.{
  MemberRole, owner, admin, member, viewer, is_owner, role_as_str, role_try_from, forbidden,
}
use pairdbase.Workspace.Repository.{
  MemberRow, is_live, get_member_role, read_role, new_member, add_member,
}
use pairdbase.Workspace.Members.Authority.{HasRole, require_member-HasRole}
use pairdbase.Workspace.Settings.{
  WorkspaceRow, Tables, Circumstances, is_present, mark_workspace, soft_delete, role_in,
  insert_workspace, join_workspace, new_workspace, create_workspace, delete_workspace,
  CreateWorkspaceRequest, WorkspaceView,
}

ruleset reading = (bind-Reads, get_state-Reads, lift-Reads, return-Reads)

role_in-Reads : (c : Circumstances) (i w u : ℕ) → Reads (role_in c i w u)
unfolding role_in
role_in-Reads c i w u = search reading

role_in-HasRole :
    (c : Circumstances) (i w u : ℕ) (t : Tables) (r : MemberRole)
    → (role_in c i w u t).1 ≡ ok r
    → HasRole t.members w u r
unfolding role_in
role_in-HasRole c i w u t r h =
    require_member-HasRole (c.fault i) t.members w u r (at_state-ok _ t h)

absent_after :
    (id now : ℕ) (rows : List WorkspaceRow)
    → find (is_present id) (update_rows (is_present id) (mark_workspace now) rows) ≡ none
unfolding is_present mark_workspace
absent_after id now [] = refl
absent_after id now (r ∷ rs) = ground (arith, absent_after id now rs)

others_after :
    (id other now : ℕ) (rows : List WorkspaceRow)
    → (id == other) ≡ false
    → find (is_present other) (update_rows (is_present id) (mark_workspace now) rows)
      ≡ find (is_present other) rows
unfolding is_present mark_workspace
others_after id other now [] n = refl
others_after id other now (r ∷ rs) n = ground (arith, others_after id other now rs n)

soft_delete-run :
    (c : Circumstances) (i id : ℕ) (t : Tables) (r : Unit {0})
    → (soft_delete c i id t).1 ≡ ok r
    → (soft_delete c i id t).0 ≡ record t {
      workspaces = update_rows (is_present id) (mark_workspace (c.clock i)) t.workspaces;
    }
unfolding soft_delete ◌>>=◌
soft_delete-run c i id t r h = ground arith

-- A workspace of the tables that a user sees.
abbrev pub seen : Tables → ℕ → Option WorkspaceRow
seen t id = find (is_present id) t.workspaces

only_owner : (r : MemberRole) → is_owner r ≡ true → r ≡ owner
unfolding is_owner
only_owner owner h = refl
only_owner admin h = cc
only_owner member h = cc
only_owner viewer h = cc

-- A deletion without an error: the user was the owner of the workspace, it is there no longer,
-- every other workspace is as it was, and so are the members.
pub delete_workspace-ok :
    (c : Circumstances) (workspace_id user_id other : ℕ) (t : Tables)
    → (delete_workspace c workspace_id user_id t).1 ≡ ok tt
    → (workspace_id == other) ≡ false
    → HasRole t.members workspace_id user_id owner
      × (seen (delete_workspace c workspace_id user_id t).0 workspace_id ≡ none)
      × (seen (delete_workspace c workspace_id user_id t).0 other ≡ seen t other)
      × ((delete_workspace c workspace_id user_id t).0.members ≡ t.members)
unfolding delete_workspace
delete_workspace-ok c w u other t h n =
    let (role, a, h1) = bind-ok _ _ t (role_in-Reads c 0 w u) h in
    let (_, b, h2) = bind-ok _ _ t (require-Reads Tables (is_owner role) forbidden) h1 in
    let run =
      bind-state _ _ t (role_in-Reads c 0 w u) a
      ∙ bind-state _ _ t (require-Reads Tables (is_owner role) forbidden) b
      ∙ soft_delete-run c 1 w t tt h2 in
    let mine = only_owner role (require-ok (is_owner role) _ t b) in
    (
      subst (λ r. HasRole t.members w u r) mine (role_in-HasRole c 0 w u t role a),
      ap (λ z. seen z w) run ∙ absent_after w (c.clock 1) t.workspaces,
      ap (λ z. seen z other) run ∙ others_after w other (c.clock 1) t.workspaces n,
      ap (λ z. z.members) run,
    )

new_present :
    (row : WorkspaceRow) (rows : List WorkspaceRow)
    → any_of (λ r. r.id == row.id) rows ≡ false
    → row.is_soft_deleted ≡ false
    → row.deleted_at ≡ none
    → find (is_present row.id) (rows ++ row ∷ []) ≡ some row
unfolding is_present
new_present row [] n h k = ground arith
new_present row (r ∷ rs) n h k = ground (arith, new_present row rs (ground arith) h k)

first_member :
    (w u : ℕ) (members : List MemberRow)
    → any_of (λ m. m.workspace_id == w) members ≡ false
    → find (is_live w u) (members ++ new_member w u owner u ∷ []) ≡ some (new_member w u owner u)
unfolding is_live
first_member w u [] n = ground arith
first_member w u (m ∷ ms) n = ground (arith, first_member w u ms (ground arith))

create_workspace-run :
    (c : Circumstances) (req : CreateWorkspaceRequest) (u o : ℕ) (t : Tables) (view : WorkspaceView)
    → (create_workspace c req u o t).1 ≡ ok view
    → (any_of (λ r. r.id == c.new_id) t.workspaces ≡ false)
      × ((create_workspace c req u o t).0 ≡ record {
        workspaces = t.workspaces ++ new_workspace c req u o ∷ [];
        members = t.members ++ new_member c.new_id u owner u ∷ [];
      })
unfolding create_workspace insert_workspace join_workspace add_member ◌>>=◌
create_workspace-run c req u o t view h = (ground arith, ground arith)

-- A creation without an error, of an id that no row of the members names: the creator is the owner
-- of the workspace, which is there under the new id.
pub create_workspace-owner :
    (c : Circumstances) (req : CreateWorkspaceRequest) (user_id org_id : ℕ) (t : Tables)
    (view : WorkspaceView)
    → (create_workspace c req user_id org_id t).1 ≡ ok view
    → any_of (λ m. m.workspace_id == c.new_id) t.members ≡ false
    → HasRole (create_workspace c req user_id org_id t).0.members c.new_id user_id owner
      × ((row : WorkspaceRow) × (seen (create_workspace c req user_id org_id t).0 c.new_id
            ≡ some row)
          × (row.name ≡ req.name)
          × (row.created_by ≡ user_id)
          × (row.organization_id ≡ org_id))
unfolding get_member_role read_role role_try_from match_text role_as_str
create_workspace-owner c req u o t view h n =
    let (fresh, run) = create_workspace-run c req u o t view h in
    (
      ap (λ z. get_member_role none z.members c.new_id u) run
          ∙ ap read_role (first_member c.new_id u t.members n),
      (
        new_workspace c req u o,
        ap (λ z. seen z c.new_id) run
            ∙ new_present (new_workspace c req u o) t.workspaces fresh refl refl,
        refl,
        refl,
        refl,
      ),
    )
