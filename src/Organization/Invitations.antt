-- ===== src/Organization/Invitations.antt =====
-- The states of an invitation under the requests of
-- crates/app/src/features/organization/use_case.rs.
use pairdbase.Common.{
  Option, ℕ, ◌≡◌, true, false, ◌||◌, some, List, [], ◌∷◌, find, ◌==◌, ==-refl, arith, update_rows,
  Every, is_some, Bool-cases, inl, inr, subst, find-Every,
}
use pairdbase.Text.{Text}
use pairdbase.Organization.Rows.{OrgInvitationRow}
use pairdbase.Organization.Database.{Database, Environment}
use pairdbase.Organization.Repository.Invitations.{
  is_open, by_token, accepted, is_revocable, revoked,
}
use pairdbase.Organization.Requests.{Request, after}
use pairdbase.Organization.Writes.{
  Write, unchanged, role_set, member_removed, organization_added, settings_changed, credits_used,
  invitation_accepted, invitation_revoked,
}
use pairdbase.Organization.Writes.Requests.{after-Write}

-- What may become of an invitation: nothing, or, where it is pending, an acceptance, or, where it
-- is neither accepted nor revoked, a revocation.
pub data InvitationStep (r : OrgInvitationRow) : OrgInvitationRow → Type 0 where
  same : InvitationStep r r
  accepts : (user_id now : ℕ) → is_open now r ≡ true → InvitationStep r (accepted now user_id r)
  revokes :
      (now : ℕ)
      → (is_some r.accepted_at || is_some r.revoked_at) ≡ false
      → InvitationStep r (revoked now r)

-- The invitations of a table, one by one.
pub data InvitationSteps : List OrgInvitationRow → List OrgInvitationRow → Type 0 where
  none_left : InvitationSteps [] []
  one_more :
      {r s : OrgInvitationRow} {rs ss : List OrgInvitationRow}
      → InvitationStep r s
      → InvitationSteps rs ss
      → InvitationSteps (r ∷ rs) (s ∷ ss)

-- The key of a table.
abbrev pub HasUniqueIds : List OrgInvitationRow → Type 0
HasUniqueIds [] = Unit
HasUniqueIds (r ∷ rs) = Every (λ s. (s.id == r.id) ≡ false) rs × HasUniqueIds rs

all_same : (rs : List OrgInvitationRow) → InvitationSteps rs rs
all_same [] = none_left
all_same (r ∷ rs) = one_more same (all_same rs)

others_same :
    (id user_id now : ℕ) (rs : List OrgInvitationRow)
    → Every (λ s. (s.id == id) ≡ false) rs
    → InvitationSteps rs (update_rows (λ r. r.id == id) (accepted now user_id) rs)
others_same id user_id now [] h = none_left
others_same id user_id now (r ∷ rs) h = rw h.0 (one_more same (others_same id user_id now rs h.1))

token_pending :
    (token : Text) (now : ℕ) (r : OrgInvitationRow)
    → by_token token now r ≡ true
    → is_open now r ≡ true
unfolding by_token
token_pending token now r h = ground arith

accepted-InvitationSteps :
    (token : Text) (user_id now : ℕ) (invitation : OrgInvitationRow) (rs : List OrgInvitationRow)
    → HasUniqueIds rs
    → find (by_token token now) rs ≡ some invitation
    → InvitationSteps rs (update_rows (λ r. r.id == invitation.id) (accepted now user_id) rs)
accepted-InvitationSteps token user_id now invitation [] u f = none_left
accepted-InvitationSteps token user_id now invitation (r ∷ rs) u f =
    elim (Bool-cases (by_token token now r)) [
      | inl e ↦
          (let here : r ≡ invitation = ground arith in
            subst
              (λ z.
                InvitationSteps (r ∷ rs)
                  (update_rows (λ x. x.id == z.id) (accepted now user_id) (r ∷ rs)))
              here
              (rw (==-refl r.id) (
                one_more (accepts user_id now (token_pending token now r e))
                  (others_same r.id user_id now rs u.0))))
      | inr e ↦
          (let later : find (by_token token now) rs ≡ some invitation = ground arith in
            let other = find-Every _ (by_token token now) rs invitation u.0 later in
            let apart : (r.id == invitation.id) ≡ false = ground arith in
            rw apart
              (one_more same (accepted-InvitationSteps token user_id now invitation rs u.1 later)))
    ]

revocable_open :
    (id : ℕ) (r : OrgInvitationRow)
    → is_revocable id r ≡ true
    → (is_some r.accepted_at || is_some r.revoked_at) ≡ false
unfolding is_revocable
revocable_open id r h = ground arith

revoked-InvitationSteps :
    (id now : ℕ) (rs : List OrgInvitationRow)
    → InvitationSteps rs (update_rows (is_revocable id) (revoked now) rs)
revoked-InvitationSteps id now [] = none_left
revoked-InvitationSteps id now (r ∷ rs) = elim (Bool-cases (is_revocable id r)) [
  | inl e ↦
      rw e (one_more (revokes now (revocable_open id r e)) (revoked-InvitationSteps id now rs))
  | inr e ↦ rw e (one_more same (revoked-InvitationSteps id now rs))
]

Write-InvitationSteps :
    {asker : Option ℕ} (db end : Database)
    → HasUniqueIds db.invitations
    → Write asker db end
    → InvitationSteps db.invitations end.invitations
Write-InvitationSteps db _ h (invitation_accepted token i m now a b d e live kept) =
    accepted-InvitationSteps token m.user_id now i db.invitations h a
Write-InvitationSteps db _ h (invitation_revoked id now) =
    revoked-InvitationSteps id now db.invitations
Write-InvitationSteps db _ h unchanged = all_same db.invitations
Write-InvitationSteps db _ h (role_set o t by now new theirs s a b d m) = all_same db.invitations
Write-InvitationSteps db _ h (member_removed o t by now theirs s a b m) = all_same db.invitations
Write-InvitationSteps db _ h (organization_added row a b d) = all_same db.invitations
Write-InvitationSteps db _ h (settings_changed old new a b d) = all_same db.invitations
Write-InvitationSteps db _ h (credits_used o amount now a) = all_same db.invitations

-- On tables where no two invitations share an identifier, a request leaves each invitation, or
-- accepts a pending one, or revokes one that is neither accepted nor revoked: an accepted or a
-- revoked invitation stays what it is.
pub after-InvitationSteps :
    (w : Environment) (r : Request) (db : Database)
    → HasUniqueIds db.invitations
    → InvitationSteps db.invitations (after w r db).invitations
after-InvitationSteps w r db h = Write-InvitationSteps db (after w r db) h (after-Write w r db)
