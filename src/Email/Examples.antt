-- ===== src/Email/Examples.antt =====
-- The theorems about e-mails at a greeting and at a mail server.
use pairdbase.Common.{◌≡◌, refl, List, [], ◌∷◌, none, some, ok, true}
use pairdbase.Text.{Text, codes, text_eq}
use pairdbase.Email.Types.{EmailMessage, message_to, named, DeliveryResult, EmailConfig, smtp}
use pairdbase.Email.Service.{new_service}
use pairdbase.Email.Clients.{Parts, Clients, Provider, smtp_of}
use pairdbase.Email.Providers.{
  providers, smtp_new, smtp_transport, provider_send, smtp_send, build_message, mailboxes_of,
  mailbox_of, reply_box,
}
use pairdbase.Email.Delivery.{IsFor, IsDelivery, provider_send-IsConfigured}
use pairdbase.Email.Renderer.{render}
use pairdbase.Email.Rendering.{
  Piece, literal, place, written, value_of, substituted, render-written,
}

abbrev greeting : List Piece
greeting =
    literal (codes "Hi ") ∷ place (codes "name") ∷ literal (codes ", ") ∷ place (codes "date") ∷ []

abbrev names : List (Text × Text)
names = (codes "role", codes "admin") ∷ (codes "name", codes "Ann") ∷ []

render-written_example : render (written greeting) names ≡ codes "Hi Ann, {{date}}"
unfolding substituted value_of text_eq
render-written_example =
    render-written names greeting ((refl, refl), ((refl, refl), tt))
      (refl, (refl, (refl, (refl, tt))))

-- Clients that take every message.
abbrev clients : Clients Text Text Text (Parts Text) Text Text
clients = record {
  parse_address = λ t. ok t;
  starttls_relay = λ host. ok host;
  tls_parameters = λ host. ok host;
  relay = λ host. ok host;
  wrapper = λ b p. b;
  builder_dangerous = λ host. host;
  build = λ b port user pass. b;
  build_pooled = λ b port user pass. b;
  multipart = λ parts. ok parts;
  transmit = λ t mail. ok (some (codes "queued"));
  post_resend = λ key body. ok (codes "{}");
  post_send_grid = λ key body. ok (codes "{}");
  is_success = λ resp. true;
  status_text = λ resp. codes "200 OK";
  body_text = λ resp. some resp;
  json_id = λ resp. ok none;
  message_header = λ resp. none;
  console_id = codes "7";
}

abbrev by_smtp : EmailConfig
by_smtp = record {
  provider = smtp;
  from_email = codes "no-reply@pairdbase.io";
  from_name = codes "Pairdbase";
  base_url = codes "https://pairdbase.io";
  smtp_host = some (codes "mail.pairdbase.io");
  smtp_port = none;
  smtp_username = none;
  smtp_password = none;
  resend_api_key = none;
  sendgrid_api_key = none;
}

abbrev server : Provider Text Text
server = smtp_of (record {
  mailer = codes "mail.pairdbase.io";
  from_box = record { name = some (codes "Pairdbase"); address = codes "no-reply@pairdbase.io" };
})

abbrev hello : EmailMessage
hello =
    message_to (named (codes "ann@example.com") (codes "Ann")) (codes "Hello") (codes "<p>Hi</p>")
      (codes "Hi")

abbrev queued : DeliveryResult
queued = record { message_id = some (codes "queued"); provider = codes "smtp" }

provider_send-IsConfigured_example :
    IsFor clients by_smtp server × IsDelivery clients server hello queued
unfolding new_service providers smtp_new smtp_transport provider_send smtp_send build_message
    mailboxes_of mailbox_of reply_box
provider_send-IsConfigured_example =
    provider_send-IsConfigured clients by_smtp server hello queued refl refl
