-- ===== src/Email/Delivery.antt =====
-- Theorems on the providers of crates/app/src/services/email/provider.rs.
use pairdbase.Common.{
  Option, none, ◌++◌, ℕ, ◌≡◌, refl, true, some, List, [], ◌∷◌, map, ok, ok_or, ok_or-eq-ok,
  OnOk-of_map_err, OnOk, OnOk-bind, OnOk-map_err, OnOk-ok, Bool-cases, inl, inr,
}
use pairdbase.Text.{Text, codes}
use pairdbase.Email.Types.{
  EmailAddress, EmailMessage, DeliveryResult, EmailProviderKind, smtp, resend, send_grid, console,
  EmailConfig,
}
use pairdbase.Email.Service.{new_service}
use pairdbase.Email.Clients.{
  SmtpTls, Mailbox, Clients, SmtpProvider, Provider, smtp_of, resend_of, send_grid_of, console_of,
}
use pairdbase.Email.Providers.{
  smtp_transport, smtp_new, providers, mailbox_of, mailboxes_of, reply_box, build_message,
  smtp_send, resend_body, resend_send, send_grid_body, send_grid_send, provider_send, provider_name,
}

-- A name that is not there is sent as an empty one.
abbrev name_or_empty : Option Text → Text
name_or_empty none = []
name_or_empty (some n) = n

module _ {Address Builder Tls Mail Transport Response : Type 0}
    (w : Clients Address Builder Tls Mail Transport Response) where
  -- The provider is of the configured kind, with the configured key and sender.
  abbrev pub IsFor : EmailConfig → Provider Address Transport → Type 0
  IsFor c (smtp_of p) =
      (c.provider ≡ smtp)
      × (w.parse_address c.from_email ≡ ok p.from_box.address)
      × (p.from_box.name ≡ some c.from_name)
  IsFor c (resend_of key from_email from_name) =
      (c.provider ≡ resend)
      × (c.resend_api_key ≡ some key)
      × (from_email ≡ c.from_email)
      × (from_name ≡ c.from_name)
  IsFor c (send_grid_of key from_email from_name) =
      (c.provider ≡ send_grid)
      × (c.sendgrid_api_key ≡ some key)
      × (from_email ≡ c.from_email)
      × (from_name ≡ c.from_name)
  IsFor c console_of = c.provider ≡ console

  -- The mailbox has the name of the address, and its text as the client reads it.
  abbrev pub IsMailbox : EmailAddress → Mailbox Address → Type 0
  IsMailbox a box = (box.name ≡ a.name) × (w.parse_address a.email ≡ ok box.address)

  -- One mailbox for each address, in order.
  abbrev pub AreMailboxes : List EmailAddress → List (Mailbox Address) → Type 0
  AreMailboxes [] [] = Unit
  AreMailboxes [] (box ∷ boxes) = ⊥
  AreMailboxes (a ∷ addrs) [] = ⊥
  AreMailboxes (a ∷ addrs) (box ∷ boxes) = IsMailbox a box × AreMailboxes addrs boxes

  abbrev pub IsReply : Option EmailAddress → Option (Mailbox Address) → Type 0
  IsReply none none = Unit
  IsReply none (some box) = ⊥
  IsReply (some a) none = ⊥
  IsReply (some a) (some box) = IsMailbox a box

  -- The mail is what the client makes of the message: with its subject and its two texts, from the
  -- sender, for all its addresses.
  abbrev pub IsBuilt : Mailbox Address → EmailMessage → Mail → Type 0
  IsBuilt sender msg mail =
      (boxes : List (Mailbox Address)) × (reply : Option (Mailbox Address)) × AreMailboxes msg.to
        boxes
      × IsReply msg.reply_to reply
      × (w.multipart (record {
        from = sender;
        subject = msg.subject;
        to = boxes;
        reply_to = reply;
        plain = msg.text;
        html = msg.html;
      })
          ≡ ok mail)

  -- The client was given the message, for all its addresses, and told of success.
  abbrev pub Accepted : Provider Address Transport → EmailMessage → DeliveryResult → Type 0
  Accepted (smtp_of p) msg d =
      (mail : Mail) × IsBuilt p.from_box msg mail × (w.transmit p.mailer mail ≡ ok d.message_id)
  Accepted (resend_of key from_email from_name) msg d =
      (resp : Response) × (w.post_resend key (record {
        from = from_name ++ (codes " <" ++ (from_email ++ codes ">"));
        to = map (λ a. a.email) msg.to;
        subject = msg.subject;
        html = msg.html;
        text = msg.text;
        tags = msg.tags;
      })
        ≡ ok resp)
      × (w.is_success resp ≡ true)
      × (w.json_id resp ≡ ok d.message_id)
  Accepted (send_grid_of key from_email from_name) msg d =
      (resp : Response) × (w.post_send_grid key (record {
        to = map (λ a. (a.email, name_or_empty a.name)) msg.to;
        from = (from_email, from_name);
        subject = msg.subject;
        text = msg.text;
        html = msg.html;
      })
        ≡ ok resp)
      × (w.is_success resp ≡ true)
      × (w.message_header resp ≡ d.message_id)
  Accepted console_of msg d = Unit

  -- What stands for a successful delivery by the provider.
  abbrev pub IsDelivery : Provider Address Transport → EmailMessage → DeliveryResult → Type 0
  IsDelivery s msg d = (d.provider ≡ provider_name s) × Accepted s msg d

  mailbox_of-IsMailbox : (a : EmailAddress) → OnOk (IsMailbox a) (mailbox_of w a)
  unfolding mailbox_of
  mailbox_of-IsMailbox a =
      OnOk-map_err (IsMailbox a) _ (w.parse_address a.email) _ (λ x e. (refl, e))

  mailboxes_of-AreMailboxes :
      (addrs : List EmailAddress) → OnOk (AreMailboxes addrs) (mailboxes_of w addrs)
  unfolding mailboxes_of
  mailboxes_of-AreMailboxes [] = tt
  mailboxes_of-AreMailboxes (a ∷ rest) =
      let P = AreMailboxes (a ∷ rest) in
      OnOk-bind P (mailbox_of w a) _ (λ box e. OnOk-bind P (mailboxes_of w rest) _ (λ boxes e'. (
        OnOk-ok (IsMailbox a) _ box (mailbox_of-IsMailbox a) e,
        OnOk-ok (AreMailboxes rest) _ boxes (mailboxes_of-AreMailboxes rest) e',
      )))

  reply_box-IsReply : (o : Option EmailAddress) → OnOk (IsReply o) (reply_box w o)
  unfolding reply_box
  reply_box-IsReply none = tt
  reply_box-IsReply (some a) =
      OnOk-bind (IsReply (some a)) (mailbox_of w a) _
        (λ box e. OnOk-ok (IsMailbox a) _ box (mailbox_of-IsMailbox a) e)

  build_message-IsBuilt :
      (sender : Mailbox Address) (msg : EmailMessage)
      → OnOk (IsBuilt sender msg) (build_message w sender msg)
  unfolding build_message
  build_message-IsBuilt sender msg =
      let P = IsBuilt sender msg in
      OnOk-bind P (mailboxes_of w msg.to) _ (λ boxes e.
        OnOk-bind P (reply_box w msg.reply_to) _ (λ reply e'.
          let to_all = OnOk-ok (AreMailboxes msg.to) _ boxes (mailboxes_of-AreMailboxes msg.to) e in
          let back = OnOk-ok (IsReply msg.reply_to) _ reply (reply_box-IsReply msg.reply_to) e' in
          OnOk-of_map_err P _ (w.multipart _) (λ mail m. (boxes, reply, to_all, back, m))))

  smtp_send-IsDelivery :
      (p : SmtpProvider Address Transport) (msg : EmailMessage)
      → OnOk (IsDelivery (smtp_of p) msg) (smtp_send w p msg)
  unfolding smtp_send provider_name
  smtp_send-IsDelivery p msg =
      let P = IsDelivery (smtp_of p) msg in
      OnOk-bind P (build_message w p.from_box msg) _ (λ email e.
        let built =
          OnOk-ok (IsBuilt p.from_box msg) _ email (build_message-IsBuilt p.from_box msg) e in
        OnOk-map_err P _ (w.transmit p.mailer email) _ (λ id sent. (refl, (email, built, sent))))

  resend_send-IsDelivery :
      (key e n : Text) (msg : EmailMessage)
      → OnOk (IsDelivery (resend_of key e n) msg) (resend_send w key e n msg)
  unfolding resend_send provider_name
  resend_send-IsDelivery key e n msg =
      let P = IsDelivery (resend_of key e n) msg in
      OnOk-map_err P _ (w.post_resend key (resend_body w e n msg)) _ (λ resp posted.
        elim (Bool-cases (w.is_success resp)) [
          | inl success ↦ rw (success) (
              OnOk-map_err P _ (w.json_id resp) _
                (λ id read. (refl, (resp, posted, success, read))))
          | inr failure ↦ rw (failure) tt
        ])

  send_grid_send-IsDelivery :
      (key e n : Text) (msg : EmailMessage)
      → OnOk (IsDelivery (send_grid_of key e n) msg) (send_grid_send w key e n msg)
  unfolding send_grid_send provider_name
  send_grid_send-IsDelivery key e n msg =
      let P = IsDelivery (send_grid_of key e n) msg in
      OnOk-map_err P _ (w.post_send_grid key (send_grid_body w e n msg)) _ (λ resp posted.
        elim (Bool-cases (w.is_success resp)) [
          | inl success ↦ rw (success) (refl, (resp, posted, success, refl))
          | inr failure ↦ rw (failure) tt
        ])

  smtp_new-IsFor :
      (c : EmailConfig) (host : Text) (port : ℕ) (user pass : Text) (tls : SmtpTls)
      → c.provider ≡ smtp
      → OnOk (IsFor c) (smtp_new w host port user pass c.from_email c.from_name tls)
  unfolding smtp_new
  smtp_new-IsFor c host port user pass tls e =
      OnOk-map_err (IsFor c) _ (w.parse_address c.from_email) _ (λ addr a.
        OnOk-bind (IsFor c) (smtp_transport w host port user pass tls) _ (λ mailer m. (e, a, refl)))

  of_kind-IsFor :
      (c : EmailConfig) (kind : EmailProviderKind)
      → c.provider ≡ kind
      → OnOk (IsFor c) (new_service (providers w) c)
  unfolding new_service providers
  of_kind-IsFor c smtp e =
      simp (e, new_service)
        (OnOk-bind (IsFor c) (ok_or c.smtp_host _) _ (λ host h. search smtp_new-IsFor))
  of_kind-IsFor c resend e =
      simp (e, new_service)
        (OnOk-bind (IsFor c) (ok_or c.resend_api_key _) _
          (λ key h. (e, ok_or-eq-ok c.resend_api_key _ h, refl, refl)))
  of_kind-IsFor c send_grid e =
      simp (e, new_service)
        (OnOk-bind (IsFor c) (ok_or c.sendgrid_api_key _) _
          (λ key h. (e, ok_or-eq-ok c.sendgrid_api_key _ h, refl, refl)))
  of_kind-IsFor c console e = simp (e, new_service) refl

  provider_send-IsDelivery :
      (s : Provider Address Transport) (msg : EmailMessage)
      → OnOk (IsDelivery s msg) (provider_send w s msg)
  unfolding provider_send provider_name
  provider_send-IsDelivery (smtp_of p) msg = smtp_send-IsDelivery p msg
  provider_send-IsDelivery (resend_of key e n) msg = resend_send-IsDelivery key e n msg
  provider_send-IsDelivery (send_grid_of key e n) msg = send_grid_send-IsDelivery key e n msg
  provider_send-IsDelivery console_of msg = (refl, tt)

  -- A delivery without an error through the service that a configuration makes: the provider is of
  -- the configured kind, with the configured key and sender; it names itself in the result; and where
  -- it is not the console, its client was given the message, with its subject and its two texts, for
  -- exactly its addresses, and the server took it: a web service answered with success.
  pub provider_send-IsConfigured :
      (c : EmailConfig) (s : Provider Address Transport) (msg : EmailMessage) (d : DeliveryResult)
      → new_service (providers w) c ≡ ok s
      → provider_send w s msg ≡ ok d
      → IsFor c s × IsDelivery s msg d
  provider_send-IsConfigured c s msg d made sent = (
    OnOk-ok (IsFor c) _ s (of_kind-IsFor c c.provider refl) made,
    OnOk-ok (IsDelivery s msg) _ d (provider_send-IsDelivery s msg) sent,
  )
