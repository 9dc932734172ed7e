-- ===== src/Outbox/Examples.antt =====
-- The theorems about the outbox at one event that cannot be sent.
use pairdbase.Common.{List, arith, ℕ, ◌≡◌, refl, none, [], ◌∷◌, ◌+◌, ◌≤◌, false, ok, err}
use pairdbase.Common.Maps.{Map, lookup, insert}
use pairdbase.Text.{codes, decimal}
use pairdbase.Email.Types.{EmailMessage, provider_error}
use pairdbase.Email.Service.{Templates, Mailer}
use pairdbase.Outbox.Events.{OutboxEvent, email_org_invitation, dispatch_event}
use pairdbase.Outbox.Mails.{recipient, link_of, Sends, dispatch_event-Sends}
use pairdbase.Outbox.Tries.{count_tries, count_tries-le}
use pairdbase.Outbox.{OutboxRow, Calls, publish, process_batch, pending, max_attempts}
use pairdbase.Outbox.Settling.{AtRest, process_batch-AtRest}
use pairdbase.Outbox.Attempts.{empty, published, worked, IsValid, Runs-IsValid}

abbrev failing : Calls ℕ ℕ
failing = record {
  locked = λ id. false;
  from_value = λ p. ok p;
  dispatch = λ id event. err (codes "no mail server");
  claimed_at = 10;
  settled_at = λ id. 11;
  claim_fault = none;
  settle_fault = λ id. none;
}

abbrev no_rows : Map (OutboxRow ℕ)
no_rows = []

fresh : lookup 7 no_rows ≡ none
unfolding lookup
fresh = refl

Runs-IsValid_example : IsValid (process_batch failing (publish 7 3 0 no_rows)).1
Runs-IsValid_example = Runs-IsValid ℕ ℕ (worked failing (published 7 3 0 fresh empty))

waiting : AtRest (publish 7 3 0 no_rows)
unfolding publish lookup insert
waiting k r l = ground arith

process_batch-AtRest_example : AtRest (process_batch failing (publish 7 3 0 no_rows)).1
process_batch-AtRest_example =
    process_batch-AtRest failing (publish 7 3 0 no_rows) refl (λ id. refl) waiting

abbrev first_row : OutboxRow ℕ
first_row = record {
  payload = 3;
  status = pending;
  attempts = 0;
  scheduled_at = 0;
  last_error = none;
  processed_at = none;
}

count_tries-le_example :
    0 + count_tries 7 (failing ∷ failing ∷ []) (publish 7 3 0 no_rows) ≤ max_attempts
unfolding publish lookup insert
count_tries-le_example =
    count_tries-le 7 (failing ∷ failing ∷ []) (publish 7 3 0 no_rows) first_row
      (Runs-IsValid ℕ ℕ (published 7 3 0 fresh empty)) refl

abbrev templates : Templates
templates = record {
  welcome = codes "Welcome {{display_name}}";
  password_reset = [];
  org_invitation = codes "Join {{org_name}}";
  workspace_invitation = [];
  magic_link = [];
  plan_limit = [];
  connection_alert = [];
}

-- The messages that were sent are the state.
abbrev office : Mailer (List EmailMessage)
office = record {
  send = λ msg sent. (err (provider_error (codes "refused")), msg ∷ sent);
  base_url = codes "https://pairdbase.io";
  templates = templates;
  uuid_text = λ id. decimal id;
  walk = λ vars. vars;
}

abbrev invited : OutboxEvent
invited =
    email_org_invitation (codes "bo@example.com") (codes "Ann") (codes "Acme") (codes "admin")
      (codes "t0ken")

dispatch_event-Sends_example :
    Sends office [] (recipient invited) (link_of office invited) (dispatch_event office invited [])
dispatch_event-Sends_example = dispatch_event-Sends office invited []
