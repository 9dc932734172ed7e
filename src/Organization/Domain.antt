-- ===== src/Organization/Domain.antt =====
-- Plans, roles, errors and the shape of an address of organizations:
-- crates/app/src/features/organization/domain.rs, error.rs and `slugify` of use_case.rs.
use pairdbase.Common.{
  ℕ, ◌≡◌, refl, Bool, true, false, not, List, [], ◌∷◌, Result, ok, ok_or, map, keep, ◌==◌,
  if◌then◌else◌,
}
use pairdbase.Common.Int.{ℤ, pos}
use pairdbase.Text.{Text, codes, match_text, Unicode, split, is_empty, join}

pub data OrgPlan : Type 0 where
  free pro team enterprise : OrgPlan

unfoldable pub plan_as_str : OrgPlan → Text
plan_as_str free = codes "free"
plan_as_str pro = codes "pro"
plan_as_str team = codes "team"
plan_as_str enterprise = codes "enterprise"

-- `i32::MAX`.
abbrev pub i32_max : ℤ
i32_max = pos 2147483647

unfoldable pub plan_max_workspaces : OrgPlan → ℤ
plan_max_workspaces free = pos 3
plan_max_workspaces pro = pos 20
plan_max_workspaces team = pos 100
plan_max_workspaces enterprise = i32_max

unfoldable pub plan_max_members : OrgPlan → ℤ
plan_max_members free = pos 5
plan_max_members pro = pos 10
plan_max_members team = pos 100
plan_max_members enterprise = i32_max

unfoldable pub plan_max_connections : OrgPlan → ℤ
plan_max_connections free = pos 10
plan_max_connections pro = pos 50
plan_max_connections team = pos 200
plan_max_connections enterprise = i32_max

unfoldable pub plan_ai_credits_limit : OrgPlan → ℤ
plan_ai_credits_limit free = pos 50
plan_ai_credits_limit pro = pos 500
plan_ai_credits_limit team = pos 2000
plan_ai_credits_limit enterprise = i32_max

pub data OrgError : Type 0 where
  org_not_found slug_taken org_already_member invitation_not_found : OrgError
  invitation_already_accepted cannot_remove_org_owner org_forbidden : OrgError
  plan_limit_reached invalid_plan invalid_org_role org_internal : Text → OrgError

abbrev plan_arms : List (Text × OrgPlan)
plan_arms =
    (codes "free", free)
    ∷ (codes "pro", pro)
    ∷ (codes "team", team)
    ∷ (codes "enterprise", enterprise)
    ∷ []

unfoldable pub plan_try_from : Text → Result OrgError OrgPlan
unfolding match_text
plan_try_from s = ok_or (match_text s plan_arms) (invalid_plan s)

pub data OrgRole : Type 0 where
  org_owner org_admin org_member : OrgRole

unfoldable pub org_role_as_str : OrgRole → Text
org_role_as_str org_owner = codes "owner"
org_role_as_str org_admin = codes "admin"
org_role_as_str org_member = codes "member"

-- `==` of the derived `PartialEq`.
unfoldable pub is_org_owner : OrgRole → Bool
is_org_owner org_owner = true
is_org_owner _ = false

unfoldable pub is_org_admin : OrgRole → Bool
is_org_admin org_admin = true
is_org_admin _ = false

unfoldable pub may_manage_members : OrgRole → Bool
may_manage_members org_owner = true
may_manage_members org_admin = true
may_manage_members _ = false

unfoldable pub can_manage_billing : OrgRole → Bool
can_manage_billing org_owner = true
can_manage_billing _ = false

unfoldable pub can_manage_sso : OrgRole → Bool
can_manage_sso org_owner = true
can_manage_sso org_admin = true
can_manage_sso _ = false

unfoldable pub can_view_audit_log : OrgRole → Bool
can_view_audit_log org_owner = true
can_view_audit_log org_admin = true
can_view_audit_log _ = false

abbrev pub org_role_arms : List (Text × OrgRole)
org_role_arms =
    (codes "owner", org_owner) ∷ (codes "admin", org_admin) ∷ (codes "member", org_member) ∷ []

unfoldable pub org_role_try_from : Text → Result OrgError OrgRole
unfolding match_text
org_role_try_from s = ok_or (match_text s org_role_arms) (invalid_org_role s)

pub plan_try_from-plan_as_str : (p : OrgPlan) → plan_try_from (plan_as_str p) ≡ ok p
unfolding plan_try_from plan_as_str
plan_try_from-plan_as_str free = refl
plan_try_from-plan_as_str _ = refl

pub org_role_try_from-org_role_as_str : (r : OrgRole) → org_role_try_from (org_role_as_str r) ≡ ok r
unfolding org_role_try_from org_role_as_str
org_role_try_from-org_role_as_str org_owner = refl
org_role_try_from-org_role_as_str _ = refl

-- The character of an address for a character of the name in lower case.
unfoldable pub slug_char : Unicode → ℕ → ℕ
slug_char u c = if u.is_alphanumeric c then c else b'-'

unfoldable pub slugify : Unicode → Text → Text
unfolding slug_char split join
slugify u name = join (codes "-") (
    keep (λ w. not (is_empty w)) (split (λ c. c == b'-') (map (slug_char u) (u.to_lowercase name))))
