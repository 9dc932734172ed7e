-- ===== src/Email/Types.antt =====
-- Addresses, messages and errors: crates/app/src/services/email/types.rs, and EmailConfig of
-- crates/app/src/config.rs.
use pairdbase.Common.{ℕ, Option, none, some, List, [], ◌∷◌, ◌++◌}
use pairdbase.Text.{Text, codes}

pub record EmailAddress : Type 0 where
  pub email : Text
  pub name : Option Text

abbrev pub unnamed : Text → EmailAddress
unnamed email = record { email = email; name = none }

abbrev pub named : Text → Text → EmailAddress
named email name = record { email = email; name = some name }

unfoldable pub display : EmailAddress → Text
display a = elim a.name [ some n ↦ n ++ codes " <" ++ a.email ++ codes ">" | none ↦ a.email ]

pub record EmailMessage : Type 0 where
  pub to : List EmailAddress
  pub subject : Text
  pub html : Text
  pub text : Text
  pub reply_to : Option EmailAddress
  pub tags : List Text

abbrev pub message_to : EmailAddress → Text → Text → Text → EmailMessage
message_to recipient subject html text = record {
  to = recipient ∷ [];
  subject = subject;
  html = html;
  text = text;
  reply_to = none;
  tags = [];
}

abbrev pub with_tag : EmailMessage → Text → EmailMessage
with_tag m tag = record m { tags = m.tags ++ (tag ∷ []) }

pub record DeliveryResult : Type 0 where
  pub message_id : Option Text
  pub provider : Text

pub data EmailError : Type 0 where
  template_error provider_error invalid_address : Text → EmailError

-- `Display`, by thiserror.
unfoldable pub email_error_text : EmailError → Text
email_error_text (template_error t) = codes "template render error: " ++ t
email_error_text (provider_error t) = codes "provider error: " ++ t
email_error_text (invalid_address t) = codes "invalid address: " ++ t

pub data EmailProviderKind : Type 0 where
  smtp resend send_grid console : EmailProviderKind

pub record EmailConfig : Type 0 where
  pub provider : EmailProviderKind
  pub from_email : Text
  pub from_name : Text
  pub base_url : Text
  pub smtp_host : Option Text
  pub smtp_port : Option ℕ
  pub smtp_username : Option Text
  pub smtp_password : Option Text
  pub resend_api_key : Option Text
  pub sendgrid_api_key : Option Text
