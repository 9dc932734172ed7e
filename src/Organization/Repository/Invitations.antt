-- ===== src/Organization/Repository/Invitations.antt =====
-- The table of invitations: create_invitation, find_invitation_by_token, accept_invitation,
-- list_pending_invitations and revoke_invitation of
-- crates/app/src/features/organization/repository.rs. The NOT NULL of CREATED_BY is that of
-- migrations/20260921150144_create_tbl_organization.sql.
use mathlib.Core.List.{reverse}
use pairdbase.Common.{
  Result, first, ok, err, ℕ, ◌+◌, Bool, false, not, ◌&&◌, ◌++◌, Option, none, some, List, [], ◌∷◌,
  ◌==◌, find, any_of, is_some, ltb, keep, update_rows, collect, sort_by,
}
use pairdbase.Common.Actions.{
  match_option, ◌>>=◌, ◌>>◌, return, raise, get_state, put_state, require, lift,
}
use pairdbase.Text.{Text, codes, text_eq}
use pairdbase.Organization.Domain.{
  OrgError, org_internal, invitation_not_found, OrgRole, org_role_as_str,
}
use pairdbase.Organization.Rows.{OrgInvitationRow, OrgInvitation, invitation_of}
use pairdbase.Organization.Database.{Database, Environment, Run, call, decoded}
use pairdbase.Organization.Repository.Members.{insert_org_member}

-- The fields that `OrgInvitationRow` takes from a row.
unfoldable pub invitation_fields : List Text
invitation_fields =
    codes "id"
    ∷ codes "org_id"
    ∷ codes "email"
    ∷ codes "role"
    ∷ codes "invited_by"
    ∷ codes "accepted_at"
    ∷ codes "accepted_by"
    ∷ codes "expires_at"
    ∷ codes "created_by"
    ∷ codes "created_at"
    ∷ codes "updated_by"
    ∷ codes "updated_at"
    ∷ codes "is_soft_deleted"
    ∷ codes "deleted_by"
    ∷ codes "deleted_at"
    ∷ []

-- What `find_invitation_by_token` selects.
unfoldable pub token_columns : List Text
token_columns =
    codes "id"
    ∷ codes "org_id"
    ∷ codes "email"
    ∷ codes "role"
    ∷ codes "invited_by"
    ∷ codes "accepted_by"
    ∷ codes "accepted_at"
    ∷ codes "expires_at"
    ∷ codes "created_at"
    ∷ codes "updated_by"
    ∷ codes "updated_at"
    ∷ codes "is_soft_deleted"
    ∷ codes "deleted_by"
    ∷ codes "deleted_at"
    ∷ []

-- What `accept_invitation` and `list_pending_invitations` select.
unfoldable pub pending_columns : List Text
pending_columns =
    codes "id"
    ∷ codes "org_id"
    ∷ codes "email"
    ∷ codes "role"
    ∷ codes "invited_by"
    ∷ codes "expires_at"
    ∷ codes "created_at"
    ∷ codes "updated_by"
    ∷ codes "updated_at"
    ∷ codes "is_soft_deleted"
    ∷ codes "deleted_by"
    ∷ codes "deleted_at"
    ∷ []

-- What `create_invitation` returns.
unfoldable pub created_columns : List Text
created_columns =
    codes "id"
    ∷ codes "org_id"
    ∷ codes "email"
    ∷ codes "role"
    ∷ codes "invited_by"
    ∷ codes "expires_at"
    ∷ codes "created_by"
    ∷ codes "created_at"
    ∷ codes "updated_by"
    ∷ codes "updated_at"
    ∷ codes "is_soft_deleted"
    ∷ codes "deleted_by"
    ∷ codes "deleted_at"
    ∷ []

-- Seven days.
abbrev invitation_secs : ℕ
invitation_secs = 604800

unfoldable pub new_invitation :
    Environment → ℕ → ℕ → Text → OrgRole → ℕ → Text → ℕ → OrgInvitationRow
unfolding org_role_as_str
new_invitation w i org_id email role invited_by token created_by = record {
  id = w.fresh i;
  org_id = org_id;
  email = email;
  role = org_role_as_str role;
  invited_by = invited_by;
  token = token;
  accepted_at = none;
  accepted_by = none;
  revoked_at = none;
  expires_at = w.clock i + invitation_secs;
  created_by = created_by;
  created_at = w.clock i;
  updated_by = none;
  updated_at = none;
  is_soft_deleted = false;
  deleted_by = none;
  deleted_at = none;
}

-- An insertion of the row that `row` makes of CREATED_BY, which the table refuses as null, and of a
-- token that it has.
unfoldable pub insert_invitation :
    Environment → ℕ → Text → (ℕ → OrgInvitationRow) → Option ℕ → Run OrgInvitationRow
unfolding text_eq
insert_invitation w i token row none =
    call w i >> raise (org_internal (w.violation (codes "created_by")))
insert_invitation w i token row (some created_by) = do
  call w i
  db ← get_state
  require (not (any_of (λ r. text_eq r.token token) db.invitations))
      (org_internal (w.violation (codes "UQ_ORG_INVITATIONS_TOKEN")))
  put_state (record db { invitations = db.invitations ++ row created_by ∷ [] })
  return (row created_by)

-- The statement leaves CREATED_BY out.
unfoldable pub create_invitation :
    Environment → ℕ → ℕ → Text → OrgRole → ℕ → Text → Run OrgInvitation
unfolding insert_invitation new_invitation created_columns invitation_fields invitation_of
create_invitation w i org_id email role invited_by token = do
  row ← insert_invitation w i token (new_invitation w i org_id email role invited_by token) none
  decoded w created_columns invitation_fields
  lift (invitation_of row)

-- Neither accepted, nor revoked, nor expired.
unfoldable pub is_open : ℕ → OrgInvitationRow → Bool
is_open now r = not (is_some r.accepted_at) && not (is_some r.revoked_at) && ltb now r.expires_at

unfoldable pub by_token : Text → ℕ → OrgInvitationRow → Bool
unfolding is_open text_eq
by_token token now r = text_eq r.token token && is_open now r

unfoldable pub find_invitation_by_token : Environment → ℕ → Text → Run (Option OrgInvitation)
unfolding by_token token_columns invitation_fields invitation_of match_option
find_invitation_by_token w i token = do
  call w i
  db ← get_state
  match_option (find (by_token token (w.clock i)) db.invitations) (return none) (λ row. do
    decoded w token_columns invitation_fields
    invitation ← lift (invitation_of row)
    return (some invitation))

unfoldable pub accepted : ℕ → ℕ → OrgInvitationRow → OrgInvitationRow
accepted now user_id r = record r { accepted_at = some now; accepted_by = some user_id }

-- A transaction: what it did is undone where it fails.
abbrev pub commit {ℓ} :
    {A : Type ℓ} → Database → Database → Result OrgError A → Database × Result OrgError A
commit before end (ok x) = (end, ok x)
commit before end (err e) = (before, err e)

abbrev pub in_transaction {ℓ} : {A : Type ℓ} → Run A → Run A
in_transaction act db = commit db (act db).0 (act db).1

-- `SELECT .. FOR UPDATE`.
unfoldable pub lock_invitation : Environment → ℕ → Text → Run OrgInvitationRow
unfolding by_token pending_columns invitation_fields match_option
lock_invitation w i token = do
  call w i
  db ← get_state
  match_option (find (by_token token (w.clock i)) db.invitations) (raise invitation_not_found)
      (λ row. decoded w pending_columns invitation_fields >> return row)

-- The statements that follow, and the commit.
unfoldable pub admit_invited : Environment → ℕ → ℕ → ℕ → OrgInvitationRow → Run OrgInvitationRow
unfolding insert_org_member accepted
admit_invited w i now user_id row = do
  insert_org_member w i now row.org_id user_id row.role (some user_id)
  call w (i + 1)
  db ← get_state
  put_state (record db {
    invitations = update_rows (λ r. r.id == row.id) (accepted now user_id) db.invitations;
  })
  call w (i + 2)
  return row

-- What `accept_invitation` does after the begin, with the numbers from `i` on; `NOW()` is the
-- same in the whole transaction.
unfoldable pub acceptance : Environment → ℕ → Text → ℕ → Run OrgInvitationRow
unfolding lock_invitation admit_invited
acceptance w i token user_id = do
  row ← lock_invitation w i token
  admit_invited w (i + 1) (w.clock i) user_id row

-- `accept_invitation`, with the five numbers of its calls from `i` on.
unfoldable pub accept_row : Environment → ℕ → Text → ℕ → Run OrgInvitation
unfolding acceptance invitation_of
accept_row w i token user_id = do
  call w i
  row ← in_transaction (acceptance w (i + 1) token user_id)
  lift (invitation_of row)

unfoldable pub list_pending_invitations : Environment → ℕ → ℕ → Run (List OrgInvitation)
unfolding is_open pending_columns invitation_fields invitation_of match_option
list_pending_invitations w i org_id = do
  call w i
  db ← get_state
  let rows = keep (λ r. r.org_id == org_id && is_open (w.clock i) r) db.invitations
  match_option (first rows) (return []) (λ row. do
    decoded w pending_columns invitation_fields
    lift (collect invitation_of (reverse (sort_by (λ r. r.created_at) rows))))

unfoldable pub is_revocable : ℕ → OrgInvitationRow → Bool
is_revocable id r = r.id == id && not (is_some r.accepted_at) && not (is_some r.revoked_at)

unfoldable pub revoked : ℕ → OrgInvitationRow → OrgInvitationRow
revoked now r = record r { revoked_at = some now }

unfoldable pub revoke_row : Environment → ℕ → ℕ → Run (Unit {0})
unfolding is_revocable revoked
revoke_row w i id = do
  call w i
  db ← get_state
  put_state (record db {
    invitations = update_rows (is_revocable id) (revoked (w.clock i)) db.invitations;
  })
  require (any_of (is_revocable id) db.invitations) invitation_not_found
