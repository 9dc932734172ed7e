-- ===== src/Email/Service.antt =====
-- The service: EmailService::new and send of crates/app/src/services/email/mod.rs. What a provider makes of a
-- message, and the templates (crates/app/src/services/email/templates), are the record Mailer.
use pairdbase.Common.{ℕ, Option, none, some, List, [], Result, ok, ◌>>=◌, ◌>>◌, ok_or}
use pairdbase.Text.{Text, codes}
use pairdbase.Email.Types.{
  EmailMessage, DeliveryResult, EmailError, provider_error, smtp, resend, send_grid, console,
  EmailConfig,
}

pub record Templates : Type 0 where
  pub welcome : Text
  pub password_reset : Text
  pub org_invitation : Text
  pub workspace_invitation : Text
  pub magic_link : Text
  pub plan_limit : Text
  pub connection_alert : Text

-- `EmailService`: the provider's send, which changes the state of all that it writes to, `Display` of a Uuid, and the order in which the entries of a
-- HashMap are walked.
pub record Mailer (S : Type 0) : Type 0 where
  pub send : EmailMessage → S → Result EmailError DeliveryResult × S
  pub base_url : Text
  pub templates : Templates
  pub uuid_text : ℕ → Text
  pub walk : List (Text × Text) → List (Text × Text)

-- What makes the providers; that of SMTP may fail.
pub record Providers (S : Type 0) : Type 0 where
  pub smtp_provider : Text → ℕ → Text → Text → Text → Text → Result EmailError S
  pub resend_provider : Text → Text → Text → S
  pub send_grid_provider : Text → Text → Text → S
  pub console_provider : S

abbrev pub or_empty : Option Text → Text
or_empty none = []
or_empty (some t) = t

abbrev port_of : Option ℕ → ℕ
port_of none = 587
port_of (some port) = port

unfoldable pub new_service : {S : Type 0} → Providers S → EmailConfig → Result EmailError S
new_service p c = elim c.provider [
  | smtp ↦ ok_or c.smtp_host (provider_error (codes "SMTP_HOST not set")) >>= λ host.
      p.smtp_provider host (port_of c.smtp_port) (or_empty c.smtp_username)
        (or_empty c.smtp_password) c.from_email c.from_name
  | resend ↦ ok_or c.resend_api_key (provider_error (codes "RESEND_API_KEY not set")) >>= λ key.
      ok (p.resend_provider key c.from_email c.from_name)
  | send_grid ↦
      ok_or c.sendgrid_api_key (provider_error (codes "SENDGRID_API_KEY not set")) >>= λ key.
      ok (p.send_grid_provider key c.from_email c.from_name)
  | console ↦ ok p.console_provider
]

-- What sending does: its outcome, and the state that it leaves.
abbrev pub Sending : Type 0 → Type 0
Sending S = S → Result EmailError (Unit {0}) × S

-- `send(...).await?` and then `Ok(())`.
abbrev pub deliver : {S : Type 0} → Mailer S → EmailMessage → Sending S
deliver m msg s = ((m.send msg s).0 >> ok tt, (m.send msg s).1)
