-- ===== src/Workspace/Domain.antt =====
-- Roles and errors of workspaces: crates/app/src/features/workspace/domain.rs and error.rs.
use pairdbase.Common.{◌≡◌, refl, Bool, true, false, List, [], ◌∷◌, Result, ok, ok_or}
use pairdbase.Text.{Text, codes, match_text}

pub data MemberRole : Type 0 where
  owner admin member viewer : MemberRole

unfoldable pub role_as_str : MemberRole → Text
role_as_str owner = codes "owner"
role_as_str admin = codes "admin"
role_as_str member = codes "member"
role_as_str viewer = codes "viewer"

-- `==` of the derived `PartialEq`.
unfoldable pub is_owner : MemberRole → Bool
is_owner owner = true
is_owner _ = false

unfoldable pub is_admin : MemberRole → Bool
is_admin admin = true
is_admin _ = false

unfoldable pub can_manage_members : MemberRole → Bool
can_manage_members owner = true
can_manage_members admin = true
can_manage_members _ = false

unfoldable pub can_manage_connections : MemberRole → Bool
can_manage_connections viewer = false
can_manage_connections _ = true

unfoldable pub can_execute_queries : MemberRole → Bool
can_execute_queries viewer = false
can_execute_queries _ = true

pub data WorkspaceError : Type 0 where
  workspace_not_found name_taken forbidden already_member cannot_remove_owner : WorkspaceError
  user_not_found invalid_role workspace_internal : Text → WorkspaceError

abbrev pub role_arms : List (Text × MemberRole)
role_arms =
    (codes "owner", owner)
    ∷ (codes "admin", admin)
    ∷ (codes "member", member)
    ∷ (codes "viewer", viewer)
    ∷ []

unfoldable pub role_try_from : Text → Result WorkspaceError MemberRole
unfolding match_text
role_try_from s = ok_or (match_text s role_arms) (invalid_role s)

pub role_try_from-as_str : (r : MemberRole) → role_try_from (role_as_str r) ≡ ok r
unfolding role_try_from role_as_str
role_try_from-as_str owner = refl
role_try_from-as_str _ = refl
