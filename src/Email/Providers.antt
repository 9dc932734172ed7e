-- ===== src/Email/Providers.antt =====
-- The providers: new, from_config, build_message and send of
-- crates/app/src/services/email/provider.rs. What they log is left out.
use pairdbase.Common.{
  ℕ, Option, none, some, List, [], ◌∷◌, ◌++◌, map, Result, ok, err, ◌>>=◌, map_err, if◌then◌else◌,
}
use pairdbase.Text.{Text, codes, Unicode, match_text}
use pairdbase.Email.Types.{
  EmailAddress, EmailMessage, DeliveryResult, EmailError, provider_error, invalid_address,
}
use pairdbase.Email.Service.{Providers, or_empty}
use pairdbase.Email.Clients.{
  SmtpTls, no_tls, start_tls, wrapped_tls, Mailbox, ResendBody, SendGridBody, Clients, SmtpProvider,
  Provider, smtp_of, resend_of, send_grid_of, console_of,
}

abbrev or_start_tls : Option SmtpTls → SmtpTls
or_start_tls none = start_tls
or_start_tls (some t) = t

unfoldable pub tls_of : Unicode → Text → SmtpTls
unfolding match_text
tls_of u tls_mode = or_start_tls (
    match_text (u.to_lowercase tls_mode) (
      (codes "starttls", start_tls)
      ∷ (codes "start_tls", start_tls)
      ∷ (codes "tls", wrapped_tls)
      ∷ (codes "ssl", wrapped_tls)
      ∷ (codes "none", no_tls)
      ∷ (codes "plain", no_tls)
      ∷ []))

-- An error with a text before it.
abbrev pub failed : Text → Text → EmailError
failed what e = provider_error (what ++ e)

abbrev bad_address : Text → Text → EmailError
bad_address what e = invalid_address (what ++ (codes ": " ++ e))

module _ {Address Builder Tls Mail Transport Response : Type 0}
    (w : Clients Address Builder Tls Mail Transport Response) where
  unfoldable pub smtp_transport : Text → ℕ → Text → Text → SmtpTls → Result EmailError Transport
  smtp_transport host port user pass start_tls = do
    b ← map_err (failed (codes "SMTP relay: ")) (w.starttls_relay host)
    ok (w.build_pooled b port user pass)
  smtp_transport host port user pass wrapped_tls = do
    p ← map_err (failed (codes "TLS params: ")) (w.tls_parameters host)
    b ← map_err (failed (codes "SMTP relay: ")) (w.relay host)
    ok (w.build_pooled (w.wrapper b p) port user pass)
  smtp_transport host port user pass no_tls = ok (w.build (w.builder_dangerous host) port user pass)

  unfoldable pub smtp_new :
      Text
      → ℕ
      → Text
      → Text
      → Text
      → Text
      → SmtpTls
      → Result EmailError (Provider Address Transport)
  unfolding smtp_transport
  smtp_new host port user pass from_email from_name tls = do
    from_addr ← map_err (bad_address (codes "from address")) (w.parse_address from_email)
    mailer ← smtp_transport host port user pass tls
    ok (
        smtp_of (record {
          mailer = mailer;
          from_box = record { name = some from_name; address = from_addr };
        }))

  unfoldable pub from_config :
      Unicode
      → Text
      → ℕ
      → Text
      → Text
      → Text
      → Text
      → Text
      → Result EmailError (Provider Address Transport)
  unfolding smtp_new tls_of
  from_config u host port user pass from_email from_name tls_mode =
      smtp_new host port user pass from_email from_name (tls_of u tls_mode)

  -- The providers as EmailService::new makes them.
  unfoldable pub providers : Providers (Provider Address Transport)
  unfolding smtp_new
  providers = record {
    smtp_provider = λ host port user pass from_email from_name.
        smtp_new host port user pass from_email from_name wrapped_tls;
    resend_provider = λ key from_email from_name. resend_of key from_email from_name;
    send_grid_provider = λ key from_email from_name. send_grid_of key from_email from_name;
    console_provider = console_of;
  }

  unfoldable pub mailbox_of : EmailAddress → Result EmailError (Mailbox Address)
  mailbox_of a = do
    parsed ← map_err (bad_address a.email) (w.parse_address a.email)
    ok (record { name = a.name; address = parsed })

  unfoldable pub mailboxes_of : List EmailAddress → Result EmailError (List (Mailbox Address))
  unfolding mailbox_of
  mailboxes_of [] = ok []
  mailboxes_of (a ∷ rest) = do box ← mailbox_of a; boxes ← mailboxes_of rest; ok (box ∷ boxes)

  unfoldable pub reply_box : Option EmailAddress → Result EmailError (Option (Mailbox Address))
  unfolding mailbox_of
  reply_box none = ok none
  reply_box (some a) = do box ← mailbox_of a; ok (some box)

  unfoldable pub build_message : Mailbox Address → EmailMessage → Result EmailError Mail
  unfolding mailboxes_of reply_box
  build_message from_box msg = do
    boxes ← mailboxes_of msg.to
    reply ← reply_box msg.reply_to
    map_err (failed (codes "build message: ")) (
        w.multipart (record {
          from = from_box;
          subject = msg.subject;
          to = boxes;
          reply_to = reply;
          plain = msg.text;
          html = msg.html;
        }))

  unfoldable pub smtp_send :
      SmtpProvider Address Transport → EmailMessage → Result EmailError DeliveryResult
  unfolding build_message
  smtp_send p msg = do
    email ← build_message p.from_box msg
    message_id ← map_err (failed (codes "SMTP send: ")) (w.transmit p.mailer email)
    ok (record { message_id = message_id; provider = codes "smtp" })

  -- The response must tell of success.
  abbrev checked : Text → Response → Result EmailError Response
  checked name resp =
      if w.is_success resp
      then ok resp
      else err (
          provider_error
            (name ++ (w.status_text resp ++ (codes " — " ++ or_empty (w.body_text resp)))))

  abbrev pub resend_body : Text → Text → EmailMessage → ResendBody
  resend_body from_email from_name msg = record {
    from = from_name ++ (codes " <" ++ (from_email ++ codes ">"));
    to = map (λ a. a.email) msg.to;
    subject = msg.subject;
    html = msg.html;
    text = msg.text;
    tags = msg.tags;
  }

  unfoldable pub resend_send : Text → Text → Text → EmailMessage → Result EmailError DeliveryResult
  resend_send key from_email from_name msg = do
    answer ← map_err provider_error (w.post_resend key (resend_body from_email from_name msg))
    resp ← checked (codes "Resend ") answer
    id ← map_err provider_error (w.json_id resp)
    ok (record { message_id = id; provider = codes "resend" })

  abbrev pub send_grid_body : Text → Text → EmailMessage → SendGridBody
  send_grid_body from_email from_name msg = record {
    to = map (λ a. (a.email, or_empty a.name)) msg.to;
    from = (from_email, from_name);
    subject = msg.subject;
    text = msg.text;
    html = msg.html;
  }

  unfoldable pub send_grid_send :
      Text → Text → Text → EmailMessage → Result EmailError DeliveryResult
  send_grid_send key from_email from_name msg = do
    answer ← map_err provider_error (w.post_send_grid key (send_grid_body from_email from_name msg))
    resp ← checked (codes "SendGrid ") answer
    ok (record { message_id = w.message_header resp; provider = codes "sendgrid" })

  unfoldable pub provider_send :
      Provider Address Transport → EmailMessage → Result EmailError DeliveryResult
  unfolding smtp_send resend_send send_grid_send
  provider_send (smtp_of p) msg = smtp_send p msg
  provider_send (resend_of key from_email from_name) msg = resend_send key from_email from_name msg
  provider_send (send_grid_of key from_email from_name) msg =
      send_grid_send key from_email from_name msg
  provider_send console_of msg =
      ok (record {
        message_id = some (codes "console-" ++ w.console_id);
        provider = codes "console";
      })

-- EmailProvider::name.
unfoldable pub provider_name : {Address Transport : Type 0} → Provider Address Transport → Text
provider_name (smtp_of p) = codes "smtp"
provider_name (resend_of key from_email from_name) = codes "resend"
provider_name (send_grid_of key from_email from_name) = codes "sendgrid"
provider_name console_of = codes "console"
