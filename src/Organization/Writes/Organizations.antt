-- ===== src/Organization/Writes/Organizations.antt =====
-- The changes that create, update and consume_ai_credits of
-- crates/app/src/features/organization/use_case.rs make.
use pairdbase.Common.{
  ℕ, Option, ◌≡◌, refl, not, none, some, ok, ok_or-eq-ok, ap, ◌∙◌, arith, any_of, find, find-holds,
  transpose-eq-some, >>=-eq-ok,
}
use pairdbase.Common.Int.{ℤ, pos}
use pairdbase.Common.Actions.{
  Reads, bind-ok, after_reading, after_writing, at_state, at_state-ok, require-ok,
}
use pairdbase.Organization.Domain.{plan_ai_credits_limit, plan_try_from, org_owner}
use pairdbase.Organization.Rows.{Organization, OrganizationRow, organization_of}
use pairdbase.Organization.Database.{Database, Environment}
use pairdbase.Organization.Repository.Members.{add_org_member, insert_org_member}
use pairdbase.Organization.Repository.Organizations.{
  has_id, organization_row, insert_organization, update_organization, find_organization,
  increment_ai_credits, overflows,
}
use pairdbase.Organization.UseCases.{
  known_organization, CreateOrgRequest, UpdateOrgRequest, new_organization, create_organization,
  update_settings, with_request, consume_ai_credits,
}
use pairdbase.Organization.Reading.{
  reading, find_by_slug-Reads, find_organization-Reads, known_organization-Reads,
  require_org_member-Reads,
}
use pairdbase.Organization.Writes.{
  Write, unchanged, organization_added, settings_changed, credits_used,
}

organization_of-kept :
    (row : OrganizationRow) (org : Organization)
    → organization_of row ≡ ok org
    → (org.id ≡ row.id)
      × (org.ai_credits_used ≡ row.ai_credits_used)
      × (org.ai_credits_limit ≡ row.ai_credits_limit)
unfolding organization_of
organization_of-kept row org h =
    let (plan, a, b) = >>=-eq-ok (plan_try_from row.plan) _ h in (cc, cc, cc)

module _ (w : Environment) where
  -- The row that `find_by_id` has read.
  pub known_organization-found :
      (i o : ℕ) (db : Database) (org : Organization)
      → (known_organization w i o db).1 ≡ ok org
      → (row : OrganizationRow) × (find (has_id o) db.organizations ≡ some row)
        × (organization_of row ≡ ok org)
  unfolding known_organization find_organization
  known_organization-found i o db org h =
      let (found, a, k) = bind-ok _ _ db (find_organization-Reads w i o) h in
      let (_, _, b) = bind-ok _ _ db (search reading) (a ∙ ap ok (ok_or-eq-ok found _ k)) in
      transpose-eq-some organization_of (find (has_id o) db.organizations) (at_state-ok _ db b)

  add_org_member-Reads : (i o u : ℕ) → Reads (add_org_member w i o u org_owner none)
  unfolding add_org_member insert_org_member
  add_org_member-Reads i o u = search reading depth 8

  insert_organization-Write :
      {asker : Option ℕ} (i : ℕ) (org : Organization) (u : ℕ) (db : Database)
      → org.ai_credits_used ≡ pos 0
      → org.ai_credits_limit ≡ pos 50
      → Write asker db (insert_organization w i org u db).0
  unfolding insert_organization organization_row Reads
  insert_organization-Write i org u db h k =
      after_reading _ _ (Write _) db (search reading) unchanged (λ _ _. at_state _ db (Write _) (
        after_reading _ _ (Write _) db (search reading) unchanged (λ _ a.
          after_reading _ _ (Write _) db (search reading) unchanged (λ _ b.
            after_writing _ _ (Write _) db (λ _. search reading)
              (organization_added (organization_row w i org u)
                (let c = require-ok (not (any_of (has_id org.id) db.organizations)) _ db a in
                  ground arith)
                h k)))))

  pub create_organization-Write :
      {asker : Option ℕ} (req : CreateOrgRequest) (u : ℕ) (db : Database)
      → Write asker db (create_organization w req u db).0
  unfolding create_organization new_organization plan_ai_credits_limit
  create_organization-Write req u db =
      after_reading _ _ (Write _) db (find_by_slug-Reads w 0 _) unchanged (λ _ _.
        after_reading _ _ (Write _) db (search reading) unchanged (λ _ _.
          after_writing _ _ (Write _) db (λ _. search (reading, add_org_member-Reads))
            (insert_organization-Write 3 (new_organization w req _) u db refl refl)))

  update_organization-Write :
      {asker : Option ℕ} (i : ℕ) (org : Organization) (old : OrganizationRow) (db : Database)
      → find (has_id org.id) db.organizations ≡ some old
      → org.ai_credits_used ≡ old.ai_credits_used
      → org.ai_credits_limit ≡ old.ai_credits_limit
      → Write asker db (update_organization w i org db).0
  unfolding update_organization
  update_organization-Write i org old db f h k =
      after_reading _ _ (Write _) db (search reading) unchanged (λ _ _. at_state _ db (Write _) (
        after_writing _ _ (Write _) db (λ _. search reading depth 9)
          (settings_changed old org f h k)))

  pub update_settings-Write :
      {asker : Option ℕ} (o : ℕ) (req : UpdateOrgRequest) (u : ℕ) (db : Database)
      → Write asker db (update_settings w o req u db).0
  unfolding update_settings with_request
  update_settings-Write o req u db =
      after_reading _ _ (Write _) db (require_org_member-Reads w 0 o u) unchanged (λ _ _.
        after_reading _ _ (Write _) db (search reading) unchanged (λ _ _.
          after_reading _ _ (Write _) db (known_organization-Reads w 1 o) unchanged (λ existing e.
            (let (row, a, b) = known_organization-found 1 o db existing e in
              let (c, d, f) = organization_of-kept row existing b in
              let g = find-holds (has_id o) db.organizations row a in
              let same : existing.id ≡ o = ground arith in
              update_organization-Write 3 (with_request req (w.clock 2) existing) row db (rw same a)
                d f))))

  increment_ai_credits-Write :
      {asker : Option ℕ} (i o : ℕ) (amount : ℤ) (db : Database)
      → Write asker db (increment_ai_credits w i o amount db).0
  unfolding increment_ai_credits Reads
  increment_ai_credits-Write i o amount db =
      after_reading _ _ (Write _) db (search reading) unchanged (λ _ _. at_state _ db (Write _) (
        after_reading _ _ (Write _) db (search reading) unchanged (λ _ a.
          after_writing _ _ (Write _) db (λ _. search reading)
            (credits_used o amount (w.clock i) (
              let c = require-ok (not (any_of (overflows o amount) db.organizations)) _ db a in
              ground arith)))))

  pub consume_ai_credits-Write :
      {asker : Option ℕ} (o : ℕ) (amount : ℤ) (db : Database)
      → Write asker db (consume_ai_credits w o amount db).0
  unfolding consume_ai_credits
  consume_ai_credits-Write o amount db =
      after_reading _ _ (Write _) db (known_organization-Reads w 0 o) unchanged (λ _ _.
        after_reading _ _ (Write _) db (search reading) unchanged
          (λ _ _. increment_ai_credits-Write 1 o amount db))
