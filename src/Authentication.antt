-- ===== src/Authentication.antt =====
-- Passwords and refresh tokens: register, login, refresh, logout, logout_all and issue_tokens of
-- crates/app/src/features/auth/use_cases.rs, over the calls of repository.rs and the tokens of
-- tokens.rs. Argon2, SHA-256, the signature of an access token and the random bytes are parameters.
pub mod Database
pub mod Sessions
pub mod Rotation
pub mod Oauth
pub mod Linking
mod Examples
use pairdbase.Common.{
  ℕ, ◌+◌, Bool, true, false, not, ◌&&◌, Option, none, some, List, [], ◌∷◌, ◌++◌, Result, ok, err,
  map_err, ok_or, ◌==◌, find, any_of, is_some, ltb, update_rows, if◌then◌else◌,
}
use pairdbase.Common.Actions.{
  Action, ◌>>=◌, ◌>>◌, return, raise, lift, get_state, put_state, require, may_fail,
}
use pairdbase.Text.{Text, codes, text_eq, match_text}
use pairdbase.Authentication.Database.{
  role_text, UserRow, role_of_text, TokenRow, NewUser, Claims, AuthTokens, Outside, AuthStep, ask,
  invalid_credentials, email_taken, invalid_token, user_unknown, auth_internal,
}

unfoldable pub has_email : Text → UserRow → Bool
unfolding text_eq
has_email email u = text_eq u.email email && not u.is_soft_deleted

unfoldable pub has_user_id : ℕ → UserRow → Bool
has_user_id id u = u.id == id && not u.is_soft_deleted

unfoldable pub find_user : Outside → ℕ → (UserRow → Bool) → AuthStep (Option UserRow)
find_user x i p = do ask x i; t ← get_state; return (find p t.users)

-- The row of a new user, for which the database fills the other columns.
abbrev user_row : Outside → ℕ → NewUser → UserRow
user_row x i new = record {
  id = x.new_id;
  organization_id = new.organization_id;
  email = new.email;
  display_name = new.display_name;
  avatar_url = new.avatar_url;
  password_hash = new.password_hash;
  role = x.default_role;
  is_verified = new.is_verified;
  last_login_at = none;
  created_at = x.clock i;
  updated_at = none;
  updated_by = none;
  is_soft_deleted = false;
  deleted_at = none;
}

-- Under the constraint users_organization_id_email_key that the code names.
unfoldable pub create_user : Outside → ℕ → NewUser → AuthStep UserRow
unfolding text_eq
create_user x i new = do
  ask x i
  t ← get_state
  require
      (not (
        any_of (λ u. u.organization_id == new.organization_id && text_eq u.email new.email)
          t.users))
      email_taken
  put_state (record t { users = t.users ++ user_row x i new ∷ [] })
  return (user_row x i new)

unfoldable pub update_last_login : Outside → ℕ → ℕ → AuthStep (Unit {0})
update_last_login x i user_id = do
  ask x i
  t ← get_state
  put_state (record t {
    users =
        update_rows (λ u. u.id == user_id) (λ u. record u { last_login_at = some (x.clock i) })
          t.users;
  })

unfoldable pub store_refresh_token : Outside → ℕ → ℕ → Text → ℕ → AuthStep (Unit {0})
unfolding text_eq
store_refresh_token x i user_id hash expires_at = do
  ask x i
  t ← get_state
  require (not (any_of (λ r. text_eq r.token_hash hash) t.tokens))
      (auth_internal (codes "tbl_refresh_tokens_token_hash_key"))
  put_state (record t {
    tokens =
        t.tokens
        ++ record {
          user_id = user_id;
          token_hash = hash;
          expires_at = expires_at;
          revoked_at = none;
        }
          ∷ [];
  })

unfoldable pub is_usable_token : Text → ℕ → TokenRow → Bool
unfolding text_eq
is_usable_token hash now r =
    text_eq r.token_hash hash && not (is_some r.revoked_at) && ltb now r.expires_at

-- The user of the token, where it is neither revoked nor expired.
unfoldable pub token_user : List TokenRow → Text → ℕ → Option ℕ
unfolding is_usable_token
token_user rows hash now = elim (find (is_usable_token hash now) rows) [
  | none ↦ none
  | some r ↦ some r.user_id
]

unfoldable pub find_refresh_token : Outside → ℕ → Text → AuthStep (Option ℕ)
unfolding token_user
find_refresh_token x i hash = do
  ask x i
  t ← get_state
  return (token_user t.tokens hash (x.clock i))

unfoldable pub revoked_token : ℕ → TokenRow → TokenRow
revoked_token now r = record r { revoked_at = some now }

-- `UPDATE .. SET revoked_at = NOW()` of the rows that pass the test and are not revoked.
unfoldable pub revoke_tokens : Outside → ℕ → (TokenRow → Bool) → AuthStep (Unit {0})
unfolding revoked_token
revoke_tokens x i p = do
  ask x i
  t ← get_state
  put_state (record t {
    tokens =
        update_rows (λ r. p r && not (is_some r.revoked_at)) (revoked_token (x.clock i)) t.tokens;
  })

unfoldable pub revoke_refresh_token : Outside → ℕ → Text → AuthStep (Unit {0})
unfolding text_eq revoke_tokens
revoke_refresh_token x i hash = revoke_tokens x i (λ r. text_eq r.token_hash hash)

unfoldable pub revoke_all_user_tokens : Outside → ℕ → ℕ → AuthStep (Unit {0})
unfolding revoke_tokens
revoke_all_user_tokens x i user_id = revoke_tokens x i (λ r. r.user_id == user_id)

abbrev pub claims_of : Outside → ℕ → UserRow → Claims
claims_of x i user = record {
  sub = user.id;
  org_id = user.organization_id;
  role = role_text (role_of_text user.role);
  exp = x.clock i + x.access_ttl;
  iat = x.clock i;
}

-- The clock is read twice, then the token is stored.
unfoldable pub issue_tokens : Outside → ℕ → UserRow → AuthStep AuthTokens
unfolding role_text role_of_text store_refresh_token
issue_tokens x i user = do
  access ← lift (map_err auth_internal (x.sign (claims_of x i user)))
  let refresh = x.random
  store_refresh_token x (i + 2) user.id (x.digest refresh) (x.clock (i + 1) + x.refresh_ttl)
  return (record {
    access_token = access;
    refresh_token = refresh;
    expires_in = x.access_ttl;
    token_type = codes "Bearer";
  })

unfoldable pub register_user : Outside → ℕ → Text → Text → Text → AuthStep AuthTokens
unfolding find_user has_email create_user issue_tokens
register_user x org_id email password display_name = do
  taken ← find_user x 0 (has_email email)
  require (not (is_some taken)) email_taken
  hash ← lift (map_err auth_internal (x.hash_password password))
  user ← create_user x 1 (record {
    organization_id = org_id;
    email = email;
    display_name = display_name;
    avatar_url = none;
    password_hash = some hash;
    is_verified = false;
  })
  issue_tokens x 2 user

-- The checks of `login`, which end in the user.
unfoldable pub check_login : Outside → Text → Text → AuthStep UserRow
unfolding find_user has_email
check_login x email password = do
  found ← find_user x 0 (has_email email)
  user ← lift (ok_or found invalid_credentials)
  hash ← lift (ok_or user.password_hash invalid_credentials)
  require (x.is_hash hash) (auth_internal (codes "bad hash"))
  require (x.verify_password password hash) invalid_credentials
  return user

unfoldable pub login : Outside → Text → Text → AuthStep AuthTokens
unfolding check_login update_last_login issue_tokens
login x email password = do
  user ← check_login x email password
  update_last_login x 1 user.id
  issue_tokens x 2 user

-- The tokens of the user, who must be there.
unfoldable pub reissue : Outside → ℕ → AuthStep AuthTokens
unfolding find_user has_user_id issue_tokens
reissue x user_id = do
  user ← find_user x 2 (has_user_id user_id)
  known ← lift (ok_or user user_unknown)
  issue_tokens x 3 known

-- `refresh` after the user of the old token is known.
unfoldable pub rotate : Outside → Text → ℕ → AuthStep AuthTokens
unfolding revoke_refresh_token reissue
rotate x hash user_id = revoke_refresh_token x 1 hash >> reissue x user_id

unfoldable pub refresh : Outside → Text → AuthStep AuthTokens
unfolding find_refresh_token rotate
refresh x token = do
  let hash = x.digest token
  found ← find_refresh_token x 0 hash
  user_id ← lift (ok_or found invalid_token)
  rotate x hash user_id

unfoldable pub logout : Outside → Text → AuthStep (Unit {0})
unfolding revoke_refresh_token
logout x token = revoke_refresh_token x 0 (x.digest token)

unfoldable pub logout_all : Outside → ℕ → AuthStep (Unit {0})
unfolding revoke_all_user_tokens
logout_all x user_id = revoke_all_user_tokens x 0 user_id
