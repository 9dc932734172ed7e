-- ===== src/Outbox/Events.antt =====
-- What an event of the outbox sends: crates/app/src/services/outbox/events.rs and
-- OutboxWorker::dispatch of crates/app/src/services/outbox/worker.rs.
use pairdbase.Common.{ℕ, Result, map_err}
use pairdbase.Common.Int.{ℤ}
use pairdbase.Text.{Text, codes}
use pairdbase.Email.Types.{email_error_text}
use pairdbase.Email.Service.{Mailer, Sending}
use pairdbase.Email.Messages.{
  send_welcome, send_password_reset, send_magic_link, send_org_invitation,
  send_workspace_invitation, send_plan_limit_warning, send_connection_alert,
}

-- The fields stand in the order of the source.
pub data OutboxEvent : Type 0 where
  email_welcome : Text → Text → Text → OutboxEvent
  email_password_reset : Text → Text → Text → OutboxEvent
  email_magic_link : Text → Text → Text → OutboxEvent
  email_org_invitation : Text → Text → Text → Text → Text → OutboxEvent
  email_workspace_invitation : Text → Text → Text → Text → Text → Text → ℕ → OutboxEvent
  email_plan_limit_warning : Text → Text → Text → ℤ → ℤ → OutboxEvent
  email_connection_alert : Text → Text → Text → Text → OutboxEvent

unfoldable pub event_type : OutboxEvent → Text
event_type (email_welcome to name token) = codes "email.welcome"
event_type (email_password_reset to name token) = codes "email.password_reset"
event_type (email_magic_link to name token) = codes "email.magic_link"
event_type (email_org_invitation to inviter org role token) = codes "email.org_invitation"
event_type (email_workspace_invitation to name inviter org workspace role id) =
    codes "email.workspace_invitation"
event_type (email_plan_limit_warning to org resource used limit) = codes "email.plan_limit_warning"
event_type (email_connection_alert to org connection message) = codes "email.connection_alert"

unfoldable pub send_event : {S : Type 0} → Mailer S → OutboxEvent → Sending S
unfolding send_welcome send_password_reset send_magic_link send_org_invitation
    send_workspace_invitation send_plan_limit_warning send_connection_alert
send_event m (email_welcome to name token) = send_welcome m to name token
send_event m (email_password_reset to name token) = send_password_reset m to name token
send_event m (email_magic_link to name token) = send_magic_link m to name token
send_event m (email_org_invitation to inviter org role token) =
    send_org_invitation m to inviter org role token
send_event m (email_workspace_invitation to name inviter org workspace role id) =
    send_workspace_invitation m to name inviter org workspace role id
send_event m (email_plan_limit_warning to org resource used limit) =
    send_plan_limit_warning m to org resource used limit
send_event m (email_connection_alert to org connection message) =
    send_connection_alert m to org connection message

-- The error of an e-mail is kept as its text.
unfoldable pub dispatch_event :
    {S : Type 0} → Mailer S → OutboxEvent → S → Result Text (Unit {0}) × S
unfolding send_event email_error_text
dispatch_event m e s = (map_err email_error_text (send_event m e s).0, (send_event m e s).1)
