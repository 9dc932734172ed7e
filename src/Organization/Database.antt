-- ===== src/Organization/Database.antt =====
-- The tables of organizations, and the environment of a request
-- (crates/app/src/features/organization/repository.rs and
-- migrations/20260921150144_create_tbl_organization.sql).
use pairdbase.Common.{ℕ, List, Option, none, some, Bool}
use pairdbase.Common.Actions.{Action, may_fail}
use pairdbase.Text.{Text, Unicode}
use pairdbase.Organization.Domain.{OrgError, org_internal}
use pairdbase.Organization.Rows.{OrganizationRow, OrgMemberRow, OrgInvitationRow}

-- The columns of TBL_USERS that a member is shown with.
pub record UserRow : Type 0 where
  pub id : ℕ
  pub email : Text
  pub display_name : Text
  pub avatar_url : Option Text

-- The columns of a workspace or a connection that are counted.
pub record OwnedRow : Type 0 where
  pub organization_id : ℕ
  pub is_soft_deleted : Bool

-- `OutboxEvent::EmailOrgInvitation`.
pub record InvitationMail : Type 0 where
  pub to : Text
  pub inviter_name : Text
  pub org_name : Text
  pub role : Text
  pub token : Text

pub record Database : Type 0 where
  pub organizations : List OrganizationRow
  pub members : List OrgMemberRow
  pub invitations : List OrgInvitationRow
  pub users : List UserRow
  pub workspaces : List OwnedRow
  pub connections : List OwnedRow
  pub outbox : List InvitationMail

-- What a request gets from the database, the clock and the libraries, for each call in the order
-- of the code: the error of a call that fails, the time, a new identifier; the error, if there is
-- one, of reading a row of the first list's columns into a struct with the second list's fields;
-- `LOWER` and the text of a constraint's error; and the random token of an invitation.
pub record Environment : Type 0 where
  pub fault : ℕ → Option Text
  pub clock : ℕ → ℕ
  pub fresh : ℕ → ℕ
  pub decode : List Text → List Text → Option Text
  pub lower : Text → Text
  pub violation : Text → Text
  pub token : Text
  pub unicode : Unicode

abbrev pub Run {ℓ} : Type ℓ → Type ℓ
Run A = Action Database OrgError A

abbrev pub internal_fault : Option Text → Option OrgError
internal_fault none = none
internal_fault (some e) = some (org_internal e)

-- A call of the database, which may fail before it does anything.
abbrev pub call : Environment → ℕ → Run (Unit {0})
call w i = may_fail (internal_fault (w.fault i))

-- A row that was read from the database, as the struct that takes it.
abbrev pub decoded : Environment → List Text → List Text → Run (Unit {0})
decoded w columns fields = may_fail (internal_fault (w.decode columns fields))
