-- ===== src/Organization/Credits.antt =====
-- The AI credits of organizations under the requests of
-- crates/app/src/features/organization/use_case.rs.
use pairdbase.Common.{
  Option, ℕ, ◌≡◌, refl, Bool, true, false, List, [], ◌∷◌, arith, update_rows, Every, append-Every,
  Bool-cases, inl, inr, find-Every,
}
use pairdbase.Common.Int.{ℤ, ltb_ℤ}
use pairdbase.Organization.Domain.{
  OrgPlan, plan_max_workspaces, plan_max_members, plan_max_connections, plan_ai_credits_limit, free,
  pro, team, enterprise,
}
use pairdbase.Organization.Rows.{OrganizationRow}
use pairdbase.Organization.Database.{Database, Environment}
use pairdbase.Organization.Repository.Organizations.{affords, with_credits, with_settings, has_id}
use pairdbase.Organization.Requests.{Request, after}
use pairdbase.Organization.Writes.{
  Write, unchanged, role_set, member_removed, organization_added, settings_changed, credits_used,
  invitation_accepted, invitation_revoked,
}
use pairdbase.Organization.Writes.Requests.{after-Write}

-- The credits used are within the limit.
abbrev pub IsWithin : OrganizationRow → Type 0
IsWithin r = ltb_ℤ r.ai_credits_limit r.ai_credits_used ≡ false

with_credits-IsWithin :
    (o : ℕ) (amount : ℤ) (now : ℕ) (r : OrganizationRow)
    → affords o amount r ≡ true
    → IsWithin (with_credits amount now r)
unfolding affords with_credits
with_credits-IsWithin o amount now r h = ground arith

update-IsWithin :
    (p : OrganizationRow → Bool) (f : OrganizationRow → OrganizationRow)
    (rows : List OrganizationRow)
    → ((r : OrganizationRow) → p r ≡ true → IsWithin (f r))
    → Every IsWithin rows
    → Every IsWithin (update_rows p f rows)
update-IsWithin p f [] k h = tt
update-IsWithin p f (r ∷ rs) k h = (
  elim (Bool-cases (p r)) [ inl e ↦ rw e (k r e) | inr e ↦ rw e h.0 ],
  update-IsWithin p f rs k h.1,
)

Write-IsWithin :
    {asker : Option ℕ} (db end : Database)
    → Every IsWithin db.organizations
    → Write asker db end
    → Every IsWithin end.organizations
unfolding with_settings
Write-IsWithin db _ h (organization_added row a b d) =
    append-Every IsWithin db.organizations (row ∷ []) h (rw (b, d) refl, tt)
Write-IsWithin db _ h (settings_changed old new a b d) =
    update-IsWithin (has_id new.id) (with_settings new) db.organizations
      (λ r k.
        (let within = find-Every IsWithin (has_id new.id) db.organizations old h a in
          rw (b, d) within))
      h
Write-IsWithin db _ h (credits_used o amount now a) =
    update-IsWithin (affords o amount) (with_credits amount now) db.organizations
      (with_credits-IsWithin o amount now) h
Write-IsWithin db _ h (invitation_accepted token i m now a b d e live kept) = h
Write-IsWithin db _ h (invitation_revoked id now) = h
Write-IsWithin db _ h unchanged = h
Write-IsWithin db _ h (role_set o t by now new theirs s a b d m) = h
Write-IsWithin db _ h (member_removed o t by now theirs s a b m) = h

-- Where every organization has used no more credits than its limit, each has after a request,
-- whatever amount one asks for.
pub after-IsWithin :
    (w : Environment) (r : Request) (db : Database)
    → Every IsWithin db.organizations
    → Every IsWithin (after w r db).organizations
after-IsWithin w r db h = Write-IsWithin db (after w r db) h (after-Write w r db)

-- The plans in their order.
pub data Upgrades : OrgPlan → OrgPlan → Type 0 where
  from_free : Upgrades free pro
  from_pro : Upgrades pro team
  from_team : Upgrades team enterprise

-- The next plan has a greater limit on each of the four resources.
pub Upgrades-limits :
    (p q : OrgPlan)
    → Upgrades p q
    → (ltb_ℤ (plan_max_workspaces p) (plan_max_workspaces q) ≡ true)
      × (ltb_ℤ (plan_max_members p) (plan_max_members q) ≡ true)
      × (ltb_ℤ (plan_max_connections p) (plan_max_connections q) ≡ true)
      × (ltb_ℤ (plan_ai_credits_limit p) (plan_ai_credits_limit q) ≡ true)
unfolding plan_max_workspaces plan_max_members plan_max_connections plan_ai_credits_limit
Upgrades-limits _ _ from_free = (refl, refl, refl, refl)
Upgrades-limits _ _ from_pro = (refl, refl, refl, refl)
Upgrades-limits _ _ from_team = (refl, refl, refl, refl)
