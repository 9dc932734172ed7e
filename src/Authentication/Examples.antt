-- ===== src/Authentication/Examples.antt =====
-- Refresh tokens and passwords at concrete inputs.
use pairdbase.Common.{ℕ, arith, Option, ◌≡◌, refl, true, false, none, some, [], ◌∷◌, ok}
use pairdbase.Common.Actions.{◌>>=◌}
use pairdbase.Text.{Text, codes, text_eq}
use pairdbase.Authentication.Database.{UserRow, TokenRow, StateRow, AuthTables, AuthTokens, Outside}
use pairdbase.Authentication.{
  create_user, has_email, has_user_id, find_user, check_login, update_last_login, login,
  is_usable_token, token_user, find_refresh_token, revoked_token, revoke_tokens,
  revoke_refresh_token, store_refresh_token, issue_tokens, reissue, rotate, refresh, logout_all,
  revoke_all_user_tokens,
}
use pairdbase.Authentication.Sessions.{IsRefused}
use pairdbase.Authentication.Oauth.{
  OAuthProfile, github, provider_text, is_account, find_oauth_account, add_account,
  create_oauth_account, user_of_profile, linked_user, profile_user, oauth_login_or_register,
  is_live_state, consume_oauth_state,
}
use pairdbase.Authentication.Linking.{
  IsIssued, oauth_login_or_register-IsIssued, consume_oauth_state-once,
}
use pairdbase.Authentication.Rotation.{refresh-IsRefused, FitsUser, IsGiven, login-FitsUser}

-- A password is its own hash, and a token its own digest.
abbrev outside : Outside
outside = record {
  fault = λ i. none;
  clock = λ i. 100;
  new_id = 8;
  new_account_id = 3;
  default_role = codes "member";
  hash_password = λ password. ok password;
  is_hash = λ hash. true;
  verify_password = λ password hash. text_eq password hash;
  sign = λ claims. ok (codes "jwt");
  digest = λ token. token;
  random = codes "new";
  access_ttl = 900;
  refresh_ttl = 5000;
}

abbrev ann : UserRow
ann = record {
  id = 7;
  organization_id = 1;
  email = codes "ann@acme.io";
  display_name = codes "Ann";
  avatar_url = none;
  password_hash = some (codes "secret");
  role = codes "owner";
  is_verified = true;
  last_login_at = none;
  created_at = 1;
  updated_at = none;
  updated_by = none;
  is_soft_deleted = false;
  deleted_at = none;
}

abbrev token_row : ℕ → Text → TokenRow
token_row user token = record {
  user_id = user;
  token_hash = token;
  expires_at = 200;
  revoked_at = none;
}

abbrev first_state : StateRow
first_state = record {
  state = codes "s1";
  provider = codes "github";
  code_verifier = codes "v";
  redirect_to = none;
  expires_at = 200;
}

abbrev stored : AuthTables
stored = record {
  users = ann ∷ [];
  tokens = token_row 7 (codes "old") ∷ token_row 9 (codes "other") ∷ [];
  accounts = [];
  states = first_state ∷ [];
}

abbrev issued : AuthTokens
issued = record {
  access_token = codes "jwt";
  refresh_token = codes "new";
  expires_in = 900;
  token_type = codes "Bearer";
}

refreshing : (refresh outside (codes "old") stored).1 ≡ ok issued
unfolding refresh find_refresh_token token_user is_usable_token rotate revoke_refresh_token
    revoke_tokens revoked_token reissue find_user has_user_id issue_tokens store_refresh_token
    text_eq ◌>>=◌
refreshing = refl

refresh-IsRefused_example : IsRefused (refresh outside (codes "old") stored).0 (codes "old")
refresh-IsRefused_example = refresh-IsRefused outside (codes "old") stored issued refreshing

leaving_all : (logout_all outside 7 stored).1 ≡ ok tt
unfolding logout_all revoke_all_user_tokens revoke_tokens ◌>>=◌
leaving_all = refl

other_user : token_user (logout_all outside 7 stored).0.tokens (codes "other") 150 ≡ some 9
unfolding logout_all revoke_all_user_tokens revoke_tokens revoked_token token_user is_usable_token
    text_eq ◌>>=◌
other_user = refl

logging_in : (login outside (codes "ann@acme.io") (codes "secret") stored).1 ≡ ok issued
unfolding login check_login find_user has_email update_last_login issue_tokens store_refresh_token
    text_eq ◌>>=◌
logging_in = refl

login-FitsUser_example :
    (fits : FitsUser outside stored (codes "ann@acme.io") (codes "secret")) × IsGiven outside
      fits.user stored
      (login outside (codes "ann@acme.io") (codes "secret") stored).0
      issued
login-FitsUser_example =
    login-FitsUser outside (codes "ann@acme.io") (codes "secret") stored issued logging_in

abbrev profile : OAuthProfile
profile = record {
  provider = github;
  provider_user_id = codes "42";
  email = codes "ann@acme.io";
  display_name = codes "ann";
  avatar_url = none;
}

by_github : (oauth_login_or_register outside 1 profile stored).1 ≡ ok issued
unfolding oauth_login_or_register find_oauth_account profile_user linked_user user_of_profile
    create_user create_oauth_account add_account is_account provider_text find_user has_email
    update_last_login issue_tokens store_refresh_token text_eq ◌>>=◌
by_github = refl

oauth_login_or_register-IsIssued_example :
    IsIssued profile stored (oauth_login_or_register outside 1 profile stored).0
oauth_login_or_register-IsIssued_example =
    oauth_login_or_register-IsIssued outside 1 profile stored issued by_github

consumed : (consume_oauth_state outside 0 (codes "s1") stored).1 ≡ ok (some first_state)
unfolding consume_oauth_state is_live_state text_eq ◌>>=◌
consumed = refl

consumed_again :
    (consume_oauth_state outside 0
      (codes "s1")
      (consume_oauth_state outside 0 (codes "s1") stored).0).1
    ≡ ok none
unfolding consume_oauth_state is_live_state text_eq ◌>>=◌
consumed_again = refl

consume_oauth_state-once_example : ◌≡◌ {A = Option StateRow} none none
consume_oauth_state-once_example =
    consume_oauth_state-once outside outside (codes "s1") stored (some first_state) none
      (omega arith) consumed consumed_again
