-- ===== src/Email/Messages.antt =====
-- The messages of the server: the functions send_welcome to send_connection_alert of
-- crates/app/src/services/email/mod.rs.
use pairdbase.Common.{ℕ, ◌+◌, ◌-◌, ◌*◌, ◌/◌, ◌%◌, ◌^◌, [], ◌∷◌, ◌++◌, leb, if◌then◌else◌}
use pairdbase.Common.Int.{ℤ, pos, negsuc, as_i64, sub_ℕ}
use pairdbase.Text.{Text, codes, decimal_ℤ}
use pairdbase.Email.Types.{unnamed, named, message_to, with_tag}
use pairdbase.Email.Renderer.{render}
use pairdbase.Email.Service.{Mailer, Sending, deliver}

unfoldable pub send_welcome : {S : Type 0} → Mailer S → Text → Text → Text → Sending S
unfolding render
send_welcome m to display_name verify_token =
    let verify_url = m.base_url ++ codes "/auth/verify-email?token=" ++ verify_token in
    let vars = (codes "display_name", display_name) ∷ (codes "verify_url", verify_url) ∷ [] in
    let html = render m.templates.welcome (m.walk vars) in
    let text =
      codes "Welcome to Pairdbase, "
      ++ display_name
      ++ codes "!\n\nVerify your email: "
      ++ verify_url
      ++ codes "\n\nThis link expires in 24 hours." in
    deliver m (
      with_tag
        (message_to (named to display_name) (codes "Welcome to Pairdbase — verify your email") html
          text)
        (codes "welcome"))

unfoldable pub send_password_reset : {S : Type 0} → Mailer S → Text → Text → Text → Sending S
unfolding render
send_password_reset m to display_name reset_token =
    let reset_url = m.base_url ++ codes "/auth/reset-password?token=" ++ reset_token in
    let vars = (codes "display_name", display_name) ∷ (codes "reset_url", reset_url) ∷ [] in
    let html = render m.templates.password_reset (m.walk vars) in
    let text =
      codes "Hi "
      ++ display_name
      ++ codes "!\n\nReset your password: "
      ++ reset_url
      ++ codes "\n\nThis link expires in 1 hour." in
    deliver m (
      with_tag
        (message_to (named to display_name) (codes "Reset your Pairdbase password") html text)
        (codes "password-reset"))

unfoldable pub send_org_invitation :
    {S : Type 0} → Mailer S → Text → Text → Text → Text → Text → Sending S
unfolding render
send_org_invitation m to inviter_name org_name role token =
    let accept_url = m.base_url ++ codes "/invitations/accept?token=" ++ token in
    let vars =
      (codes "inviter_name", inviter_name)
      ∷ (codes "org_name", org_name)
      ∷ (codes "role", role)
      ∷ (codes "accept_url", accept_url)
      ∷ (codes "expires_days", codes "7")
      ∷ [] in
    let html = render m.templates.org_invitation (m.walk vars) in
    let subject =
      inviter_name ++ codes " invited you to join " ++ org_name ++ codes " on Pairdbase" in
    let text =
      inviter_name
      ++ codes " invited you to join "
      ++ org_name
      ++ codes " as a "
      ++ role
      ++ codes ".\n\nAccept: "
      ++ accept_url
      ++ codes "\n\nExpires in 7 days." in
    deliver m (with_tag (message_to (unnamed to) subject html text) (codes "org-invitation"))

unfoldable pub send_workspace_invitation :
    {S : Type 0} → Mailer S → Text → Text → Text → Text → Text → Text → ℕ → Sending S
unfolding render
send_workspace_invitation m to display_name inviter_name org_name workspace_name role workspace_id =
    let workspace_url = m.base_url ++ codes "/workspaces/" ++ m.uuid_text workspace_id in
    let vars =
      (codes "inviter_name", inviter_name)
      ∷ (codes "org_name", org_name)
      ∷ (codes "workspace_name", workspace_name)
      ∷ (codes "role", role)
      ∷ (codes "workspace_url", workspace_url)
      ∷ [] in
    let html = render m.templates.workspace_invitation (m.walk vars) in
    let subject =
      inviter_name ++ codes " added you to the " ++ workspace_name ++ codes " workspace" in
    let text =
      inviter_name
      ++ codes " added you to "
      ++ workspace_name
      ++ codes " in "
      ++ org_name
      ++ codes " as a "
      ++ role
      ++ codes ".\n\nOpen workspace: "
      ++ workspace_url in
    deliver m (
      with_tag (message_to (named to display_name) subject html text)
        (codes "workspace-invitation"))

unfoldable pub send_magic_link : {S : Type 0} → Mailer S → Text → Text → Text → Sending S
unfolding render
send_magic_link m to display_name magic_token =
    let magic_url = m.base_url ++ codes "/auth/magic?token=" ++ magic_token in
    let vars = (codes "display_name", display_name) ∷ (codes "magic_url", magic_url) ∷ [] in
    let html = render m.templates.magic_link (m.walk vars) in
    let text =
      codes "Hi "
      ++ display_name
      ++ codes "!\n\nSign in to Pairdbase: "
      ++ magic_url
      ++ codes "\n\nThis link expires in 15 minutes and can only be used once." in
    deliver m (
      with_tag (message_to (named to display_name) (codes "Your Pairdbase sign-in link") html text)
        (codes "magic-link"))

-- `used * 100` of i64 without a check for overflow.
abbrev hundredfold : ℤ → ℤ
hundredfold (pos n) = as_i64 (n * 100)
hundredfold (negsuc n) = as_i64 (2 ^ 64 - (n + 1) * 100 % 2 ^ 64)

abbrev at_least_one : ℤ → ℕ
at_least_one (pos n) = if leb n 1 then 1 else n
at_least_one (negsuc n) = 1

-- Division rounds to 0.
abbrev quotient : ℤ → ℕ → ℤ
quotient (pos n) d = pos (n / d)
quotient (negsuc n) d = sub_ℕ 0 ((n + 1) / d)

unfoldable pub percent_of : ℤ → ℤ → ℤ
unfolding as_i64
percent_of used limit = quotient (hundredfold used) (at_least_one limit)

unfoldable pub send_plan_limit_warning :
    {S : Type 0} → Mailer S → Text → Text → Text → ℤ → ℤ → Sending S
unfolding render percent_of decimal_ℤ
send_plan_limit_warning m to org_name resource used limit =
    let upgrade_url = m.base_url ++ codes "/settings/billing" in
    let percent = decimal_ℤ (percent_of used limit) in
    let vars =
      (codes "org_name", org_name)
      ∷ (codes "resource", resource)
      ∷ (codes "used", decimal_ℤ used)
      ∷ (codes "limit", decimal_ℤ limit)
      ∷ (codes "percent", percent)
      ∷ (codes "upgrade_url", upgrade_url)
      ∷ [] in
    let html = render m.templates.plan_limit (m.walk vars) in
    let phrase =
      org_name ++ codes " is at " ++ percent ++ codes "% of its " ++ resource ++ codes " limit" in
    let text =
      phrase
      ++ codes " ("
      ++ decimal_ℤ used
      ++ codes "/"
      ++ decimal_ℤ limit
      ++ codes ").\n\nUpgrade: "
      ++ upgrade_url in
    deliver m (with_tag (message_to (unnamed to) phrase html text) (codes "plan-limit"))

unfoldable pub send_connection_alert :
    {S : Type 0} → Mailer S → Text → Text → Text → Text → Sending S
unfolding render
send_connection_alert m to org_name connection_name error_message =
    let dashboard_url = m.base_url ++ codes "/connections" in
    let vars =
      (codes "org_name", org_name)
      ∷ (codes "connection_name", connection_name)
      ∷ (codes "error_message", error_message)
      ∷ (codes "dashboard_url", dashboard_url)
      ∷ [] in
    let html = render m.templates.connection_alert (m.walk vars) in
    let subject = codes "Connection alert: " ++ connection_name ++ codes " is unreachable" in
    let text =
      codes "Connection alert: "
      ++ connection_name
      ++ codes " in "
      ++ org_name
      ++ codes " is unreachable.\n\nError: "
      ++ error_message
      ++ codes "\n\nDashboard: "
      ++ dashboard_url in
    deliver m (with_tag (message_to (unnamed to) subject html text) (codes "connection-alert"))
