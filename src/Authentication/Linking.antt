-- ===== src/Authentication/Linking.antt =====
-- Whom a login by an OAuth provider gives tokens, and how often the state of one serves
-- (crates/app/src/features/auth/use_cases.rs and repository.rs).
use pairdbase.Common.{
  ℕ, ◌+◌, ◌≡◌, refl, Bool, true, false, not, Option, none, some, List, [], ◌∷◌, ◌++◌, ok, arith, ap,
  ◌∙◌, ok_or, ok_or-eq-ok, find, find-holds, any_of, ◌≤◌, keep,
}
use pairdbase.Common.Actions.{◌>>=◌, Reads, bind-ok, bind-run, bind-state, Reads-state, lift-Reads}
use pairdbase.Text.{Text, text_eq_refl}
use pairdbase.Authentication.Database.{
  UserRow, TokenRow, AccountRow, StateRow, AuthTables, AuthTokens, Outside, user_unknown,
}
use pairdbase.Authentication.{has_email, has_user_id, create_user}
use pairdbase.Authentication.Sessions.{
  reading, find_user-Reads, issue_tokens-run, update_last_login-keeps,
}
use pairdbase.Authentication.Rotation.{find_user-found}
use pairdbase.Authentication.Oauth.{
  OAuthProfile, provider_text, is_account, add_account, find_oauth_account, create_oauth_account,
  known_account, user_of_profile, linked_user, profile_user, oauth_login_or_register, is_live_state,
  consume_oauth_state,
}

deleted_state :
    (state : Text) (now later : ℕ) (rows : List StateRow)
    → now ≤ later
    → find (is_live_state state later) (keep (λ r. not (is_live_state state now r)) rows) ≡ none
unfolding is_live_state
deleted_state state now later [] l = refl
deleted_state state now later (r ∷ rs) l = ground (arith, deleted_state state now later rs l)

-- The state of a login serves once: after it was consumed without an error, no later call of
-- consume_oauth_state finds it.
pub consume_oauth_state-once :
    (x y : Outside) (state : Text) (t : AuthTables) (found later : Option StateRow)
    → x.clock 0 ≤ y.clock 0
    → (consume_oauth_state x 0 state t).1 ≡ ok found
    → (consume_oauth_state y 0 state (consume_oauth_state x 0 state t).0).1 ≡ ok later
    → later ≡ none
unfolding consume_oauth_state ◌>>=◌
consume_oauth_state-once x y state t found later l h k =
    let gone = deleted_state state (x.clock 0) (y.clock 0) t.states l in ground arith

find-none-any {ℓ} :
    {A : Type ℓ} (p : A → Bool) (rows : List A) → find p rows ≡ none → any_of p rows ≡ false
find-none-any p [] h = refl
find-none-any p (x ∷ xs) h = ground (arith, find-none-any p xs)

find-append {ℓ} :
    {A : Type ℓ} (p : A → Bool) (a : A) (rows : List A)
    → find p rows ≡ none
    → p a ≡ true
    → find p (rows ++ a ∷ []) ≡ some a
find-append p a [] h k = ground arith
find-append p a (x ∷ xs) h k = ground (arith, find-append p a xs)

add_account-finds :
    (a : AccountRow) (rows : List AccountRow)
    → find (is_account a.provider a.provider_user_id) rows ≡ none
    → find (is_account a.provider a.provider_user_id) (add_account a rows) ≡ some a
unfolding add_account is_account
add_account-finds a rows h = ground (
  arith,
  find-none-any (is_account a.provider a.provider_user_id) rows h,
  find-append (is_account a.provider a.provider_user_id) a rows h,
  text_eq_refl a.provider,
  text_eq_refl a.provider_user_id,
)

user_of_profile-keeps :
    (x : Outside) (org_id : ℕ) (profile : OAuthProfile) (found : Option UserRow) (t : AuthTables)
    (user : UserRow)
    → (user_of_profile x org_id profile found t).1 ≡ ok user
    → ((user_of_profile x org_id profile found t).0.accounts ≡ t.accounts)
      × ((user_of_profile x org_id profile found t).0.tokens ≡ t.tokens)
unfolding user_of_profile create_user ◌>>=◌
user_of_profile-keeps x org_id profile (some u) t user h = (refl, refl)
user_of_profile-keeps x org_id profile none t user h = (ground arith, ground arith)

abbrev account_for : OAuthProfile → List AccountRow → Option AccountRow
account_for profile rows =
    find (is_account (provider_text profile.provider) profile.provider_user_id) rows

create_oauth_account-finds :
    (x : Outside) (profile : OAuthProfile) (user_id : ℕ) (t : AuthTables) (r : Unit {0})
    → account_for profile t.accounts ≡ none
    → (create_oauth_account x 3 user_id profile.provider profile.provider_user_id t).1 ≡ ok r
    → (a : AccountRow) × (a.user_id ≡ user_id)
      × (account_for profile
            (create_oauth_account x 3 user_id profile.provider profile.provider_user_id
              t).0.accounts
          ≡ some a)
      × ((create_oauth_account x 3 user_id profile.provider profile.provider_user_id t).0.tokens
          ≡ t.tokens)
unfolding create_oauth_account ◌>>=◌
create_oauth_account-finds x profile user_id t r n h =
    let a : AccountRow = record {
      id = x.new_account_id;
      user_id = user_id;
      provider = provider_text profile.provider;
      provider_user_id = profile.provider_user_id;
    } in
    let there = add_account-finds a t.accounts n in (a, refl, ground arith, ground arith)

-- The account of the profile is that of the user, and no token has been issued.
record IsLinked (profile : OAuthProfile) (user : UserRow) (before after : AuthTables) : Type 0 where
  account : AccountRow
  kept : (a : AccountRow) → account_for profile before.accounts ≡ some a → account ≡ a
  found : account_for profile after.accounts ≡ some account
  owned : account.user_id ≡ user.id
  no_token : after.tokens ≡ before.tokens

known_account-IsLinked :
    (x : Outside) (profile : OAuthProfile) (account : AccountRow) (t : AuthTables) (user : UserRow)
    → account_for profile t.accounts ≡ some account
    → (known_account x account.user_id t).1 ≡ ok user
    → IsLinked profile user t (known_account x account.user_id t).0
unfolding known_account has_user_id
known_account-IsLinked x profile account t user there h =
    let p = has_user_id account.user_id in
    let (found, a, h1) = bind-ok _ _ t (find_user-Reads x 1 p) h in
    let same =
      bind-state _ _ t (find_user-Reads x 1 p) a
      ∙ Reads-state _ (lift-Reads AuthTables (ok_or found user_unknown)) t in
    let known = find_user-found x 1 p t found a ∙ ok_or-eq-ok found _ (h1) in
    let fits = find-holds p t.users user known in
    record {
      account = account;
      kept = λ k e. ground arith;
      found = ap (λ z. account_for profile z.accounts) same ∙ there;
      owned = ground arith;
      no_token = ap (λ z. z.tokens) same;
    }

linked_user-IsLinked :
    (x : Outside) (org_id : ℕ) (profile : OAuthProfile) (t : AuthTables) (user : UserRow)
    → account_for profile t.accounts ≡ none
    → (linked_user x org_id profile t).1 ≡ ok user
    → IsLinked profile user t (linked_user x org_id profile t).0
unfolding linked_user
linked_user-IsLinked x org_id profile t user none_there h =
    let p = has_email profile.email in
    let (found, a, h1) = bind-ok _ _ t (find_user-Reads x 1 p) h in
    let (u, b, h2, c) = bind-run _ _ t h1 in
    let (_, d, e, f) = bind-run _ _ _ h2 in
    let (kept_accounts, kept_tokens) = user_of_profile-keeps x org_id profile found t u b in
    let (account, owned, there, tokens) =
      create_oauth_account-finds x profile u.id _ _
        (ap (account_for profile) kept_accounts ∙ none_there) d in
    let run = bind-state _ _ t (find_user-Reads x 1 p) a ∙ c ∙ f in
    record {
      account = account;
      kept = λ k e'. absurd (ground arith);
      found = ap (λ z. account_for profile z.accounts) run ∙ there;
      owned = owned ∙ ground arith;
      no_token = ap (λ z. z.tokens) run ∙ tokens ∙ kept_tokens;
    }

profile_user-IsLinked :
    (x : Outside) (org_id : ℕ) (profile : OAuthProfile) (t : AuthTables) (user : UserRow)
    (found : Option AccountRow)
    → account_for profile t.accounts ≡ found
    → (profile_user x org_id profile found t).1 ≡ ok user
    → IsLinked profile user t (profile_user x org_id profile found t).0
unfolding profile_user
profile_user-IsLinked x org_id profile t user (some account) there h =
    known_account-IsLinked x profile account t user there h
profile_user-IsLinked x org_id profile t user none there h =
    linked_user-IsLinked x org_id profile t user there h

find_oauth_account-Reads :
    (x : Outside) (profile : OAuthProfile)
    → Reads (find_oauth_account x 0 profile.provider profile.provider_user_id)
unfolding find_oauth_account
find_oauth_account-Reads x profile = search reading

find_oauth_account-found :
    (x : Outside) (profile : OAuthProfile) (t : AuthTables) (found : Option AccountRow)
    → (find_oauth_account x 0 profile.provider profile.provider_user_id t).1 ≡ ok found
    → account_for profile t.accounts ≡ found
unfolding find_oauth_account ◌>>=◌
find_oauth_account-found x profile t found h = ground arith

-- One token is added, for the user of the account that the profile has afterwards, which is the one
-- that it had before where it had one.
pub record IsIssued (profile : OAuthProfile) (before after : AuthTables) : Type 0 where
  pub account : AccountRow
  pub kept : (a : AccountRow) → account_for profile before.accounts ≡ some a → account ≡ a
  pub found : account_for profile after.accounts ≡ some account
  pub token : TokenRow
  pub issued : after.tokens ≡ before.tokens ++ token ∷ []
  pub owned : account.user_id ≡ token.user_id

-- A login by an OAuth provider without an error adds one refresh token, and it is for the user of
-- the account of the profile, which is afterwards there: the one that it had before, where it had
-- one.
pub oauth_login_or_register-IsIssued :
    (x : Outside) (org_id : ℕ) (profile : OAuthProfile) (t : AuthTables) (answer : AuthTokens)
    → (oauth_login_or_register x org_id profile t).1 ≡ ok answer
    → IsIssued profile t (oauth_login_or_register x org_id profile t).0
unfolding oauth_login_or_register
oauth_login_or_register-IsIssued x org_id profile t answer h =
    let (found, a, h1) = bind-ok _ _ t (find_oauth_account-Reads x profile) h in
    let (user, b, h2, c) = bind-run _ _ t h1 in
    let (_, d, e, f) = bind-run _ _ _ h2 in
    let linked =
      profile_user-IsLinked x org_id profile t user found
        (find_oauth_account-found x profile t found a) b in
    let (login_accounts, login_tokens) =
      update_last_login-keeps x 4 user.id (profile_user x org_id profile found t).0 in
    let (_, stored) = issue_tokens-run x 5 user _ answer e in
    let run = bind-state _ _ t (find_oauth_account-Reads x profile) a ∙ c ∙ f ∙ stored in
    let token : TokenRow = record {
      user_id = user.id;
      token_hash = x.digest x.random;
      expires_at = x.clock 6 + x.refresh_ttl;
      revoked_at = none;
    } in
    record {
      account = linked.account;
      kept = linked.kept;
      found =
          ap (λ z. account_for profile z.accounts) run
          ∙ ap (account_for profile) login_accounts
          ∙ linked.found;
      token = token;
      issued = ap (λ z. z.tokens) run ∙ ap (λ z. z ++ token ∷ []) (login_tokens ∙ linked.no_token);
      owned = linked.owned;
    }
