-- ===== src/Outbox/Mails.antt =====
-- What is sent for an event of the outbox (crates/app/src/services/outbox/worker.rs, dispatch).
use pairdbase.Common.{◌≡◌, refl, true, Option, none, some, [], ◌∷◌, ◌++◌, Result, ok, ◌>>◌, map_err}
use pairdbase.Text.{Text, codes, contains}
use pairdbase.Text.Search.{contains-between, contains-last}
use pairdbase.Email.Types.{EmailMessage, email_error_text}
use pairdbase.Email.Service.{Mailer}
use pairdbase.Email.Messages.{
  send_welcome, send_password_reset, send_magic_link, send_org_invitation,
  send_workspace_invitation, send_plan_limit_warning, send_connection_alert,
}
use pairdbase.Outbox.Events.{
  OutboxEvent, email_welcome, email_password_reset, email_magic_link, email_org_invitation,
  email_workspace_invitation, email_plan_limit_warning, email_connection_alert, send_event,
  dispatch_event,
}

-- To whom the event is to be sent.
unfoldable pub recipient : OutboxEvent → Text
recipient (email_welcome to name token) = to
recipient (email_password_reset to name token) = to
recipient (email_magic_link to name token) = to
recipient (email_org_invitation to inviter org role token) = to
recipient (email_workspace_invitation to name inviter org workspace role id) = to
recipient (email_plan_limit_warning to org resource used limit) = to
recipient (email_connection_alert to org connection message) = to

-- The page that the event leads to.
unfoldable pub link_of : {S : Type 0} → Mailer S → OutboxEvent → Text
link_of m (email_welcome to name token) = m.base_url ++ codes "/auth/verify-email?token=" ++ token
link_of m (email_password_reset to name token) =
    m.base_url ++ codes "/auth/reset-password?token=" ++ token
link_of m (email_magic_link to name token) = m.base_url ++ codes "/auth/magic?token=" ++ token
link_of m (email_org_invitation to inviter org role token) =
    m.base_url ++ codes "/invitations/accept?token=" ++ token
link_of m (email_workspace_invitation to name inviter org workspace role id) =
    m.base_url ++ codes "/workspaces/" ++ m.uuid_text id
link_of m (email_plan_limit_warning to org resource used limit) =
    m.base_url ++ codes "/settings/billing"
link_of m (email_connection_alert to org connection message) = m.base_url ++ codes "/connections"

-- The outcome, and the state that is left, are those of handing one message to the provider. It has
-- one address, and the link is in its text without HTML.
abbrev pub Sends : {S : Type 0} → Mailer S → S → Text → Text → Result Text (Unit {0}) × S → Type 0
Sends m s to link outcome =
    (msg : EmailMessage) × (name : Option Text) × (outcome
      ≡ (map_err email_error_text ((m.send msg s).0 >> ok tt), (m.send msg s).1))
    × (msg.to ≡ record { email = to; name = name } ∷ [])
    × (contains link msg.text ≡ true)

-- For each event the server hands one message to the provider, once, to the recipient of the event
-- alone, whose text has the event's link with its token: the outcome is the provider's answer to
-- it, and what else the provider changes is what this one message changes.
pub dispatch_event-Sends :
    {S : Type 0} (m : Mailer S) (e : OutboxEvent) (s : S)
    → Sends m s (recipient e) (link_of m e) (dispatch_event m e s)
unfolding dispatch_event send_event recipient link_of send_welcome send_password_reset
    send_magic_link send_org_invitation send_workspace_invitation send_plan_limit_warning
    send_connection_alert
dispatch_event-Sends m (email_welcome to name token) s =
    (_, some name, refl, refl, search contains-between)
dispatch_event-Sends m (email_password_reset to name token) s =
    (_, some name, refl, refl, search contains-between)
dispatch_event-Sends m (email_magic_link to name token) s =
    (_, some name, refl, refl, search contains-between)
dispatch_event-Sends m (email_org_invitation to inviter org role token) s =
    (_, none, refl, refl, search contains-between)
dispatch_event-Sends m (email_workspace_invitation to name inviter org workspace role id) s =
    (_, some name, refl, refl, search contains-last)
dispatch_event-Sends m (email_plan_limit_warning to org resource used limit) s =
    (_, none, refl, refl, search contains-last)
dispatch_event-Sends m (email_connection_alert to org connection message) s =
    (_, none, refl, refl, search contains-last)
