-- ===== src/Authentication/Oauth.antt =====
-- Accounts of OAuth providers: oauth_login_or_register of
-- crates/app/src/features/auth/use_cases.rs, with the calls on accounts and on the states of a
-- login in repository.rs, and OAuthProvider of domains.rs.
use pairdbase.Common.{
  ℕ, Bool, true, not, ◌&&◌, Option, none, some, List, [], ◌∷◌, ◌++◌, Result, ok_or, find, any_of,
  ltb, if◌then◌else◌, keep,
}
use pairdbase.Common.Actions.{◌>>=◌, ◌>>◌, return, lift, get_state, put_state}
use pairdbase.Text.{Text, codes, text_eq, match_text}
use pairdbase.Authentication.Database.{
  AuthError, unsupported_provider, user_unknown, UserRow, AccountRow, StateRow, AuthTokens, Outside,
  AuthStep, ask,
}
use pairdbase.Authentication.{
  has_email, has_user_id, find_user, create_user, update_last_login, issue_tokens,
}

pub data OAuthProvider : Type 0 where
  google github twitter discord : OAuthProvider

unfoldable pub provider_text : OAuthProvider → Text
provider_text google = codes "google"
provider_text github = codes "github"
provider_text twitter = codes "twitter"
provider_text discord = codes "discord"

-- The match of `TryFrom<&str>`.
unfoldable pub provider_try_from : Text → Result AuthError OAuthProvider
unfolding match_text
provider_try_from s =
    ok_or
      (match_text s (
        (codes "google", google)
        ∷ (codes "github", github)
        ∷ (codes "twitter", twitter)
        ∷ (codes "discord", discord)
        ∷ []))
      (unsupported_provider s)

pub record OAuthProfile : Type 0 where
  pub provider : OAuthProvider
  pub provider_user_id : Text
  pub email : Text
  pub display_name : Text
  pub avatar_url : Option Text

unfoldable pub is_account : Text → Text → AccountRow → Bool
unfolding text_eq
is_account provider provider_user_id a =
    text_eq a.provider provider && text_eq a.provider_user_id provider_user_id

unfoldable pub find_oauth_account :
    Outside → ℕ → OAuthProvider → Text → AuthStep (Option AccountRow)
unfolding is_account provider_text
find_oauth_account x i provider provider_user_id = do
  ask x i
  t ← get_state
  return (find (is_account (provider_text provider) provider_user_id) t.accounts)

-- `INSERT .. ON CONFLICT (provider, provider_user_id) DO NOTHING`.
unfoldable pub add_account : AccountRow → List AccountRow → List AccountRow
unfolding is_account
add_account a rows =
    if any_of (is_account a.provider a.provider_user_id) rows then rows else rows ++ a ∷ []

unfoldable pub create_oauth_account : Outside → ℕ → ℕ → OAuthProvider → Text → AuthStep (Unit {0})
unfolding add_account provider_text
create_oauth_account x i user_id provider provider_user_id = do
  ask x i
  t ← get_state
  put_state (record t {
    accounts =
        add_account
          (record {
            id = x.new_account_id;
            user_id = user_id;
            provider = provider_text provider;
            provider_user_id = provider_user_id;
          })
          t.accounts;
  })

-- The user of an account that is there.
unfoldable pub known_account : Outside → ℕ → AuthStep UserRow
unfolding find_user has_user_id
known_account x user_id = do
  found ← find_user x 1 (has_user_id user_id)
  lift (ok_or found user_unknown)

-- The user of a profile whose account is not there: one with its address, or a new one.
unfoldable pub user_of_profile : Outside → ℕ → OAuthProfile → Option UserRow → AuthStep UserRow
unfolding create_user
user_of_profile x org_id profile (some existing) = return existing
user_of_profile x org_id profile none = create_user x 2 (record {
  organization_id = org_id;
  email = profile.email;
  display_name = profile.display_name;
  avatar_url = profile.avatar_url;
  password_hash = none;
  is_verified = true;
})

-- Both branches link the account to the user.
unfoldable pub linked_user : Outside → ℕ → OAuthProfile → AuthStep UserRow
unfolding find_user has_email user_of_profile create_oauth_account
linked_user x org_id profile = do
  found ← find_user x 1 (has_email profile.email)
  user ← user_of_profile x org_id profile found
  create_oauth_account x 3 user.id profile.provider profile.provider_user_id
  return user

unfoldable pub profile_user : Outside → ℕ → OAuthProfile → Option AccountRow → AuthStep UserRow
unfolding known_account linked_user
profile_user x org_id profile (some account) = known_account x account.user_id
profile_user x org_id profile none = linked_user x org_id profile

-- Both ways to a user end in the same two calls.
unfoldable pub oauth_login_or_register : Outside → ℕ → OAuthProfile → AuthStep AuthTokens
unfolding find_oauth_account profile_user update_last_login issue_tokens
oauth_login_or_register x org_id profile = do
  account ← find_oauth_account x 0 profile.provider profile.provider_user_id
  user ← profile_user x org_id profile account
  update_last_login x 4 user.id
  issue_tokens x 5 user

unfoldable pub is_live_state : Text → ℕ → StateRow → Bool
unfolding text_eq
is_live_state state now r = text_eq r.state state && ltb now r.expires_at

-- `DELETE .. RETURNING`, with the row that `fetch_optional` gives.
unfoldable pub consume_oauth_state : Outside → ℕ → Text → AuthStep (Option StateRow)
unfolding is_live_state
consume_oauth_state x i state = do
  ask x i
  t ← get_state
  put_state (record t { states = keep (λ r. not (is_live_state state (x.clock i) r)) t.states })
  return (find (is_live_state state (x.clock i)) t.states)
