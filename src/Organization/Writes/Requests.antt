-- ===== src/Organization/Writes/Requests.antt =====
-- A request (crates/app/src/features/organization/use_case.rs) makes one of the changes, or none.
use pairdbase.Common.{ℕ, Option}
use pairdbase.Common.Actions.{Reads, Reads-state}
use pairdbase.Organization.Database.{Database, Environment, Run}
use pairdbase.Organization.Requests.{
  Request, asker, after, asks, asks_usage, asks_members, asks_invitations, creates, updates,
  changes_role, removes, invites, revokes, accepts, consumes,
}
use pairdbase.Organization.Reading.{
  get_organization-Reads, get_usage-Reads, list_members-Reads, list_invitations-Reads,
}
use pairdbase.Organization.Writes.{Write, unchanged}
use pairdbase.Organization.Writes.Members.{update_member_role-Write, remove_org_member-Write}
use pairdbase.Organization.Writes.Organizations.{
  create_organization-Write, update_settings-Write, consume_ai_credits-Write,
}
use pairdbase.Organization.Writes.Invitations.{
  invite_member-Write, revoke_invitation-Write, accept_invitation-Write,
}

Reads-Write :
    {asker : Option ℕ} {A : Type 0} (act : Run A) (db : Database)
    → Reads act
    → Write asker db (act db).0
Reads-Write act db h = rw (Reads-state act h db) unchanged

pub after-Write :
    (w : Environment) (r : Request) (db : Database) → Write (asker r) db (after w r db)
unfolding after asker
after-Write w (asks o u) db = Reads-Write _ db (get_organization-Reads w o u)
after-Write w (asks_usage o u) db = Reads-Write _ db (get_usage-Reads w o u)
after-Write w (asks_members o u) db = Reads-Write _ db (list_members-Reads w o u)
after-Write w (asks_invitations o u) db = Reads-Write _ db (list_invitations-Reads w o u)
after-Write w (creates req u) db = create_organization-Write w req u db
after-Write w (updates o req u) db = update_settings-Write w o req u db
after-Write w (changes_role o target role u) db = update_member_role-Write w o target role u db
after-Write w (removes o target u) db = remove_org_member-Write w o target u db
after-Write w (invites o email role u) db = invite_member-Write w o email role u db
after-Write w (revokes o id u) db = revoke_invitation-Write w o id u db
after-Write w (accepts token u) db = accept_invitation-Write w token u db
after-Write w (consumes o amount) db = consume_ai_credits-Write w o amount db
