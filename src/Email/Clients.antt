-- ===== src/Email/Clients.antt =====
-- What providers are made of: crates/app/src/services/email/provider.rs. The crates lettre and reqwest are the
-- record Clients, and the JSON of a request is its fields.
use pairdbase.Common.{ℕ, Option, List, Result}
use pairdbase.Text.{Text}
use pairdbase.Common.{Bool}

pub data SmtpTls : Type 0 where
  no_tls start_tls wrapped_tls : SmtpTls

pub record Mailbox (Address : Type 0) : Type 0 where
  pub name : Option Text
  pub address : Address

-- What the builder of a message is given.
pub record Parts (Address : Type 0) : Type 0 where
  pub from : Mailbox Address
  pub subject : Text
  pub to : List (Mailbox Address)
  pub reply_to : Option (Mailbox Address)
  pub plain : Text
  pub html : Text

pub record ResendBody : Type 0 where
  pub from : Text
  pub to : List Text
  pub subject : Text
  pub html : Text
  pub text : Text
  pub tags : List Text

pub record SendGridBody : Type 0 where
  pub to : List (Text × Text)
  pub from : Text × Text
  pub subject : Text
  pub text : Text
  pub html : Text

-- `transmit` answers with the first line of the server's response, `post` with the response to a
-- request with a bearer token.
pub record Clients (Address Builder Tls Mail Transport Response : Type 0) : Type 0 where
  pub parse_address : Text → Result Text Address
  pub starttls_relay : Text → Result Text Builder
  pub tls_parameters : Text → Result Text Tls
  pub relay : Text → Result Text Builder
  pub wrapper : Builder → Tls → Builder
  pub builder_dangerous : Text → Builder
  pub build : Builder → ℕ → Text → Text → Transport
  pub build_pooled : Builder → ℕ → Text → Text → Transport
  pub multipart : Parts Address → Result Text Mail
  pub transmit : Transport → Mail → Result Text (Option Text)
  pub post_resend : Text → ResendBody → Result Text Response
  pub post_send_grid : Text → SendGridBody → Result Text Response
  pub is_success : Response → Bool
  pub status_text : Response → Text
  pub body_text : Response → Option Text
  pub json_id : Response → Result Text (Option Text)
  pub message_header : Response → Option Text
  pub console_id : Text

pub record SmtpProvider (Address Transport : Type 0) : Type 0 where
  pub mailer : Transport
  pub from_box : Mailbox Address

pub data Provider (Address Transport : Type 0) : Type 0 where
  smtp_of : SmtpProvider Address Transport → Provider Address Transport
  resend_of : Text → Text → Text → Provider Address Transport
  send_grid_of : Text → Text → Text → Provider Address Transport
  console_of : Provider Address Transport
