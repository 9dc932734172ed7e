-- ===== src/Organization/Requests.antt =====
-- The requests that the handlers of organizations pass to the use cases
-- (crates/app/src/features/organization/use_case.rs), and the tables that one leaves.
use pairdbase.Common.{ℕ, Option, none, some}
use pairdbase.Common.Int.{ℤ}
use pairdbase.Text.{Text}
use pairdbase.Organization.Database.{Database, Environment}
use pairdbase.Organization.UseCases.{
  CreateOrgRequest, UpdateOrgRequest, get_organization, create_organization, update_settings,
  get_usage, list_members, list_invitations, consume_ai_credits,
}
use pairdbase.Organization.UseCases.Members.{update_member_role, remove_org_member}
use pairdbase.Organization.UseCases.Invitations.{
  invite_member, revoke_invitation, accept_invitation,
}

pub data Request : Type 0 where
  asks asks_usage asks_members asks_invitations : (org_id user_id : ℕ) → Request
  creates : CreateOrgRequest → (user_id : ℕ) → Request
  updates : (org_id : ℕ) → UpdateOrgRequest → (user_id : ℕ) → Request
  changes_role : (org_id target : ℕ) (role : Text) (requester : ℕ) → Request
  removes : (org_id target requester : ℕ) → Request
  invites : (org_id : ℕ) (email role : Text) (requester : ℕ) → Request
  revokes : (org_id invitation_id user_id : ℕ) → Request
  accepts : (token : Text) (user_id : ℕ) → Request
  consumes : (org_id : ℕ) (amount : ℤ) → Request

-- The user who asks, where the request names one.
unfoldable pub asker : Request → Option ℕ
asker (asks o u) = some u
asker (asks_usage o u) = some u
asker (asks_members o u) = some u
asker (asks_invitations o u) = some u
asker (creates req u) = some u
asker (updates o req u) = some u
asker (changes_role o target role u) = some u
asker (removes o target u) = some u
asker (invites o email role u) = some u
asker (revokes o id u) = some u
asker (accepts token u) = some u
asker (consumes o amount) = none

-- The tables after a request, whatever it answers.
unfoldable pub after : Environment → Request → Database → Database
unfolding get_organization get_usage list_members list_invitations create_organization
    update_settings update_member_role remove_org_member invite_member revoke_invitation
    accept_invitation consume_ai_credits
after w (asks o u) db = (get_organization w o u db).0
after w (asks_usage o u) db = (get_usage w o u db).0
after w (asks_members o u) db = (list_members w o u db).0
after w (asks_invitations o u) db = (list_invitations w o u db).0
after w (creates req u) db = (create_organization w req u db).0
after w (updates o req u) db = (update_settings w o req u db).0
after w (changes_role o target role u) db = (update_member_role w o target role u db).0
after w (removes o target u) db = (remove_org_member w o target u db).0
after w (invites o email role u) db = (invite_member w o email role u db).0
after w (revokes o id u) db = (revoke_invitation w o id u db).0
after w (accepts token u) db = (accept_invitation w token u db).0
after w (consumes o amount) db = (consume_ai_credits w o amount db).0
