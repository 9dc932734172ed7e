-- ===== src/Organization/Writes/Invitations.antt =====
-- The changes that invite_member, revoke_invitation and accept_invitation of
-- crates/app/src/features/organization/use_case.rs make.
use pairdbase.Common.{
  ℕ, ◌+◌, ◌≡◌, refl, false, none, some, ok, ok_apart, err, Result, ◌++◌, ◌∷◌, [], ◌∙◌, sym, arith,
  any_of, find, update_rows, ◌==◌, Option, subst,
}
use pairdbase.Common.Actions.{
  ◌>>=◌, Reads, bind-ok, bind-state, after_reading, after_writing, at_state, at_state-ok,
  match_option, raise, return, may_fail, ◌>>◌,
}
use pairdbase.Text.{Text}
use pairdbase.Organization.Domain.{OrgError, OrgRole, invitation_not_found}
use pairdbase.Organization.Rows.{OrgInvitationRow, OrgInvitation}
use pairdbase.Organization.Database.{Database, Environment}
use pairdbase.Organization.Repository.Members.{insert_org_member, new_org_member, is_indexed}
use pairdbase.Organization.Repository.Invitations.{
  by_token, accepted, commit, in_transaction, acceptance, accept_row, create_invitation,
  insert_invitation, revoke_row, new_invitation, lock_invitation, admit_invited,
}
use pairdbase.Organization.UseCases.Invitations.{
  invite_member, revoke_invitation, accept_invitation,
}
use pairdbase.Organization.Reading.{
  reading, find_invitation_by_token-Reads, get_org_member_role-Reads, known_organization-Reads,
  invitation_checks-Reads, require_org_member-Reads, call-Reads,
}
use pairdbase.Organization.Writes.{Write, unchanged, invitation_accepted, invitation_revoked}

module _ (w : Environment) where
  insert_invitation-Reads :
      (i : ℕ) (token : Text) (row : ℕ → OrgInvitationRow)
      → Reads (insert_invitation w i token row none)
  unfolding insert_invitation
  insert_invitation-Reads i token row = search reading

  insert_invitation-fails :
      (i : ℕ) (token : Text) (row : ℕ → OrgInvitationRow) (db : Database) (r : OrgInvitationRow)
      → (insert_invitation w i token row none db).1 ≡ ok r
      → ⊥
  unfolding insert_invitation
  insert_invitation-fails i token row db r h =
      let (_, _, b) = bind-ok _ _ db (call-Reads w i) h in ok_apart _ r b

  create_invitation-Reads :
      (i o : ℕ) (email : Text) (role : OrgRole) (u : ℕ) (token : Text)
      → Reads (create_invitation w i o email role u token)
  unfolding create_invitation
  create_invitation-Reads i o email role u token = search (reading, insert_invitation-Reads) depth 8

  -- The table refuses the row, so nothing that follows is reached.
  pub create_invitation-fails :
      (i o : ℕ) (email : Text) (role : OrgRole) (u : ℕ) (token : Text) (db : Database)
      (invitation : OrgInvitation)
      → (create_invitation w i o email role u token db).1 ≡ ok invitation
      → ⊥
  unfolding create_invitation
  create_invitation-fails i o email role u token db invitation h =
      let (row, a, _) =
        bind-ok _ _ db (insert_invitation-Reads i token (new_invitation w i o email role u token))
          h in
      insert_invitation-fails i token (new_invitation w i o email role u token) db row a

  pub invite_member-Write :
      {asker : Option ℕ} (o : ℕ) (email role : Text) (u : ℕ) (db : Database)
      → Write asker db (invite_member w o email role u db).0
  unfolding invite_member
  invite_member-Write o email role u db =
      after_reading _ _ (Write _) db (invitation_checks-Reads w o role u) unchanged (λ new _.
        after_reading _ _ (Write _) db (call-Reads w 5) unchanged (λ _ _.
          after_reading _ _ (Write _) db (create_invitation-Reads 6 o email new u w.token) unchanged
            (λ invitation e.
              absurd (create_invitation-fails 6 o email new u w.token db invitation e))))

  pub revoke_invitation-Write :
      {asker : Option ℕ} (o id u : ℕ) (db : Database)
      → Write asker db (revoke_invitation w o id u db).0
  unfolding revoke_invitation revoke_row
  revoke_invitation-Write o id u db =
      after_reading _ _ (Write _) db (require_org_member-Reads w 0 o u) unchanged (λ _ _.
        after_reading _ _ (Write _) db (search reading) unchanged (λ _ _.
          after_reading _ _ (Write _) db (call-Reads w 1) unchanged (λ _ _.
            at_state _ db (Write _) (
              after_writing _ _ (Write _) db (λ _. search reading)
                (invitation_revoked id (w.clock 1))))))

  -- What the insertion of a member leaves.
  insert_org_member-run :
      (i now o u : ℕ) (role : Text) (by : ℕ) (db : Database) (r : Unit {0})
      → (insert_org_member w i now o u role (some by) db).1 ≡ ok r
      → (any_of (is_indexed o u) db.members ≡ false)
        × ((insert_org_member w i now o u role (some by) db).0
            ≡ record db { members = db.members ++ new_org_member w i now o u role by ∷ [] })
  unfolding insert_org_member ◌>>=◌
  insert_org_member-run i now o u role by db r h = ground arith

  lock_invitation-Reads : (i : ℕ) (token : Text) → Reads (lock_invitation w i token)
  unfolding lock_invitation
  lock_invitation-Reads i token = search reading depth 9

  found_pending :
      (o : Option OrgInvitationRow) (fault : Option OrgError) (db : Database)
      (row : OrgInvitationRow)
      → (match_option o (raise invitation_not_found) (λ r. may_fail fault >> return r) db).1
        ≡ ok row
      → o ≡ some row
  unfolding match_option ◌>>=◌
  found_pending none fault db row h = cc
  found_pending (some r) none db row h = cc
  found_pending (some r) (some e) db row h = cc

  lock_invitation-found :
      (i : ℕ) (token : Text) (db : Database) (row : OrgInvitationRow)
      → (lock_invitation w i token db).1 ≡ ok row
      → find (by_token token (w.clock i)) db.invitations ≡ some row
  unfolding lock_invitation
  lock_invitation-found i token db row h =
      let (_, _, k) = bind-ok _ _ db (call-Reads w i) h in
      found_pending (find (by_token token (w.clock i)) db.invitations) _ db row (at_state-ok _ db k)

  admit_invited-run :
      (i now u : ℕ) (row : OrgInvitationRow) (db : Database) (r : OrgInvitationRow)
      → (admit_invited w i now u row db).1 ≡ ok r
      → (r ≡ row)
        × (any_of (is_indexed row.org_id u) db.members ≡ false)
        × ((admit_invited w i now u row db).0 ≡ record db {
          members = db.members ++ new_org_member w i now row.org_id u row.role u ∷ [];
          invitations = update_rows (λ r. r.id == row.id) (accepted now u) db.invitations;
        })
  unfolding admit_invited insert_org_member ◌>>=◌
  admit_invited-run i now u row db r h = (ground arith, ground arith, ground arith)

  -- What a transaction of an acceptance that is committed has seen and done.
  abbrev pub Committed : ℕ → Text → ℕ → Database → OrgInvitationRow → Type 0
  Committed i token u db row =
      (find (by_token token (w.clock i)) db.invitations ≡ some row)
      × (any_of (is_indexed row.org_id u) db.members ≡ false)
      × ((acceptance w i token u db).0 ≡ record db {
        members = db.members ++ new_org_member w (i + 1) (w.clock i) row.org_id u row.role u ∷ [];
        invitations = update_rows (λ r. r.id == row.id) (accepted (w.clock i) u) db.invitations;
      })

  pub acceptance-run :
      (i : ℕ) (token : Text) (u : ℕ) (db : Database) (row : OrgInvitationRow)
      → (acceptance w i token u db).1 ≡ ok row
      → Committed i token u db row
  unfolding acceptance
  acceptance-run i token u db row h =
      let (r, a, k) = bind-ok _ _ db (lock_invitation-Reads i token) h in
      let (same, b, c) = admit_invited-run (i + 1) (w.clock i) u r db row k in
      let run = bind-state _ _ db (lock_invitation-Reads i token) a ∙ c in
      subst (λ z. Committed i token u db z) (sym same)
        (lock_invitation-found i token db r a, b, run)

  commit-Write :
      {asker : Option ℕ} (db end : Database) (r : Result OrgError OrgInvitationRow)
      → ((row : OrgInvitationRow) → r ≡ ok row → Write asker db end)
      → Write asker db (commit db end r).0
  commit-Write db end (ok row) k = k row refl
  commit-Write db end (err e) k = unchanged

  acceptance-Write :
      {asker : Option ℕ} (i : ℕ) (token : Text) (u : ℕ) (db : Database)
      → Write asker db (in_transaction (acceptance w i token u) db).0
  acceptance-Write i token u db =
      commit-Write db (acceptance w i token u db).0 (acceptance w i token u db).1 (λ row e.
        (let (a, b, c) = acceptance-run i token u db row e in
          rw c (
            invitation_accepted token row
              (new_org_member w (i + 1) (w.clock i) row.org_id u row.role u) (w.clock i) a b refl
              refl refl refl)))

  pub accept_invitation-Write :
      {asker : Option ℕ} (token : Text) (u : ℕ) (db : Database)
      → Write asker db (accept_invitation w token u db).0
  unfolding accept_invitation accept_row
  accept_invitation-Write token u db =
      after_reading _ _ (Write _) db (find_invitation_by_token-Reads w 0 token) unchanged (λ _ _.
        after_reading _ _ (Write _) db (search reading) unchanged (λ invitation _.
          after_reading _ _ (Write _) db (search reading) unchanged (λ _ _.
            after_reading _ _ (Write _) db (search reading) unchanged (λ _ _.
              after_reading _ _ (Write _) db (get_org_member_role-Reads w 2 _ u) unchanged (λ _ _.
                after_reading _ _ (Write _) db (search reading) unchanged (λ _ _.
                  after_writing _ _ (Write _) db (λ _. known_organization-Reads w 8 _)
                    (after_reading _ _ (Write _) db (call-Reads w 3) unchanged (λ _ _.
                      after_writing _ _ (Write _) db (λ _. search reading)
                        (acceptance-Write 4 token u db)))))))))
