-- ===== src/Authentication/Database.antt =====
-- What crates/app/src/features/auth keeps and reads: domains.rs, auth_error.rs, the claims of
-- tokens.rs and the tables of repository.rs, with what comes from elsewhere.
use pairdbase.Common.{ℕ, Bool, Option, none, some, List, [], ◌∷◌, Result}
use pairdbase.Common.Actions.{Action, may_fail}
use pairdbase.Text.{Text, codes, match_text}

pub data AuthError : Type 0 where
  invalid_credentials email_taken not_verified invalid_token user_unknown : AuthError
  unsupported_provider oauth_failed auth_internal : Text → AuthError

pub data Role : Type 0 where
  role_owner role_admin role_member : Role

-- `Display`.
unfoldable pub role_text : Role → Text
role_text role_owner = codes "owner"
role_text role_admin = codes "admin"
role_text role_member = codes "member"

pub record UserRow : Type 0 where
  pub id : ℕ
  pub organization_id : ℕ
  pub email : Text
  pub display_name : Text
  pub avatar_url : Option Text
  pub password_hash : Option Text
  pub role : Text
  pub is_verified : Bool
  pub last_login_at : Option ℕ
  pub created_at : ℕ
  pub updated_at : Option ℕ
  pub updated_by : Option ℕ
  pub is_soft_deleted : Bool
  pub deleted_at : Option ℕ

-- The role of a user as the program reads it.
unfoldable pub role_of_text : Text → Role
unfolding match_text
role_of_text s =
    elim (match_text s ((codes "owner", role_owner) ∷ (codes "admin", role_admin) ∷ [])) [
      | none ↦ role_member
      | some role ↦ role
    ]

pub record TokenRow : Type 0 where
  pub user_id : ℕ
  pub token_hash : Text
  pub expires_at : ℕ
  pub revoked_at : Option ℕ

pub record NewUser : Type 0 where
  pub organization_id : ℕ
  pub email : Text
  pub display_name : Text
  pub avatar_url : Option Text
  pub password_hash : Option Text
  pub is_verified : Bool

pub record AccountRow : Type 0 where
  pub id : ℕ
  pub user_id : ℕ
  pub provider : Text
  pub provider_user_id : Text

pub record StateRow : Type 0 where
  pub state : Text
  pub provider : Text
  pub code_verifier : Text
  pub redirect_to : Option Text
  pub expires_at : ℕ

pub record AuthTables : Type 0 where
  pub users : List UserRow
  pub tokens : List TokenRow
  pub accounts : List AccountRow
  pub states : List StateRow

pub record Claims : Type 0 where
  pub sub : ℕ
  pub org_id : ℕ
  pub role : Text
  pub exp : ℕ
  pub iat : ℕ

pub record AuthTokens : Type 0 where
  pub access_token : Text
  pub refresh_token : Text
  pub expires_in : ℕ
  pub token_type : Text

-- What a request gets from elsewhere: for each call in the order of the code its error and the
-- time; the identifier and the role that the database gives a new user, and the identifier of a new
-- account; the hash of a password,
-- whether a stored hash can be read, and whether a password fits it; the signature of claims; the
-- digest of a token in hexadecimal; the random token; and the times to live in seconds.
pub record Outside : Type 0 where
  pub fault : ℕ → Option Text
  pub clock : ℕ → ℕ
  pub new_id : ℕ
  pub new_account_id : ℕ
  pub default_role : Text
  pub hash_password : Text → Result Text Text
  pub is_hash : Text → Bool
  pub verify_password : Text → Text → Bool
  pub sign : Claims → Result Text Text
  pub digest : Text → Text
  pub random : Text
  pub access_ttl : ℕ
  pub refresh_ttl : ℕ

abbrev pub AuthStep {ℓ} : Type ℓ → Type ℓ
AuthStep A = Action AuthTables AuthError A

abbrev pub auth_fault : Option Text → Option AuthError
auth_fault none = none
auth_fault (some e) = some (auth_internal e)

abbrev pub ask : Outside → ℕ → AuthStep (Unit {0})
ask x i = may_fail (auth_fault (x.fault i))
