-- ===== src/Authentication/Rotation.antt =====
-- The exchange of a refresh token for new tokens, and the tokens for a password
-- (crates/app/src/features/auth/use_cases.rs).
use pairdbase.Common.{
  ℕ, ◌+◌, ◌≡◌, refl, Bool, true, Option, none, some, [], ◌∷◌, ◌++◌, ok, arith, ap, ◌∙◌, subst,
  ok_or, ok_or-eq-ok, find, any_of, false, sym, Result,
}
use pairdbase.Common.Actions.{
  Reads, bind-ok, bind-run, bind-state, require-ok, require-Reads, lift-Reads, ◌>>=◌,
}
use pairdbase.Text.{Text, text_eq}
use pairdbase.Authentication.Database.{
  AuthError, Claims, UserRow, TokenRow, AuthTables, AuthTokens, Outside, invalid_token,
  user_unknown, invalid_credentials,
}
use pairdbase.Authentication.{
  claims_of, has_email, has_user_id, find_user, find_refresh_token, check_login, login, token_user,
  revoke_refresh_token, reissue, rotate, refresh,
}
use pairdbase.Authentication.Sessions.{
  reading, issue_tokens-answer, update_last_login-keeps, IsRefused, revoked-IsRefused,
  revoke_tokens-run, find_user-Reads, find_refresh_token-Reads, issue_tokens-run, usable_there,
  still_there, append-refused, other_digest,
}

find_refresh_token-user :
    (x : Outside) (i : ℕ) (hash : Text) (t : AuthTables) (found : Option ℕ)
    → (find_refresh_token x i hash t).1 ≡ ok found
    → token_user t.tokens hash (x.clock i) ≡ found
unfolding find_refresh_token ◌>>=◌
find_refresh_token-user x i hash t found h = ground arith

-- A token is added to those that are there, none of which has its digest.
record Adds (x : Outside) (before after : AuthTables) : Type 0 where
  new : TokenRow
  digest_of : new.token_hash ≡ x.digest x.random
  unused : any_of (λ r. text_eq r.token_hash (x.digest x.random)) before.tokens ≡ false
  added : after ≡ record before { tokens = before.tokens ++ new ∷ [] }

reissue-Adds :
    (x : Outside) (user : ℕ) (t : AuthTables) (answer : AuthTokens)
    → (reissue x user t).1 ≡ ok answer
    → Adds x t (reissue x user t).0
unfolding reissue
reissue-Adds x user t answer h =
    let (found, a, h1) = bind-ok _ _ t (find_user-Reads x 2 (has_user_id user)) h in
    let (known, b, h2) = bind-ok _ _ t (lift-Reads AuthTables (ok_or found user_unknown)) h1 in
    let (c, d) = issue_tokens-run x 3 known t answer h2 in
    record {
      new = record {
        user_id = known.id;
        token_hash = x.digest x.random;
        expires_at = x.clock 4 + x.refresh_ttl;
        revoked_at = none;
      };
      digest_of = refl;
      unused = c;
      added =
          bind-state _ _ t (find_user-Reads x 2 (has_user_id user)) a
          ∙ bind-state _ _ t (lift-Reads AuthTables (ok_or found user_unknown)) b
          ∙ d;
    }

rotate-IsRefused :
    (x : Outside) (hash : Text) (user : ℕ) (t : AuthTables) (answer : AuthTokens)
    → any_of (λ r. text_eq r.token_hash hash) t.tokens ≡ true
    → (rotate x hash user t).1 ≡ ok answer
    → IsRefused (rotate x hash user t).0 hash
unfolding rotate revoke_refresh_token
rotate-IsRefused x hash user t answer there h now =
    let (_, a, b, c) = bind-run _ _ t h in
    let run = revoke_tokens-run x 1 (λ r. text_eq r.token_hash hash) t _ a in
    let adds = subst (λ z. Adds x z (reissue x user z).0) run (reissue-Adds x user _ answer b) in
    let other =
      other_digest (x.digest x.random) hash _ (still_there hash _ (x.clock 1) t.tokens there)
        adds.unused in
    ap (λ z. token_user z.tokens hash now) (c ∙ ap (λ z. (reissue x user z).0) run ∙ adds.added)
    ∙ append-refused hash now adds.new _ (ap (λ d. text_eq d hash) adds.digest_of ∙ other)
        (revoked-IsRefused hash (x.clock 1) now t.tokens)

-- After an exchange without an error the old token opens no session.
pub refresh-IsRefused :
    (x : Outside) (token : Text) (t : AuthTables) (answer : AuthTokens)
    → (refresh x token t).1 ≡ ok answer
    → IsRefused (refresh x token t).0 (x.digest token)
unfolding refresh
refresh-IsRefused x token t answer h now =
    let hash = x.digest token in
    let (found, a, h1) = bind-ok _ _ t (find_refresh_token-Reads x 0 hash) h in
    let (user, b, h2) = bind-ok _ _ t (lift-Reads AuthTables (ok_or found invalid_token)) h1 in
    let there =
      usable_there hash (x.clock 0) t.tokens user
        (find_refresh_token-user x 0 hash t found a ∙ ok_or-eq-ok found _ b) in
    ap (λ z. token_user z.tokens hash now)
      (bind-state _ _ t (find_refresh_token-Reads x 0 hash) a
        ∙ bind-state _ _ t (lift-Reads AuthTables (ok_or found invalid_token)) b)
    ∙ rotate-IsRefused x hash user t answer there h2 now

pub find_user-found :
    (x : Outside) (i : ℕ) (p : UserRow → Bool) (t : AuthTables) (found : Option UserRow)
    → (find_user x i p t).1 ≡ ok found
    → find p t.users ≡ found
unfolding find_user ◌>>=◌
find_user-found x i p t found h = ground arith

-- The user with the address, whose stored hash the password fits.
pub record FitsUser (x : Outside) (t : AuthTables) (email password : Text) : Type 0 where
  pub user : UserRow
  pub found : find (has_email email) t.users ≡ some user
  pub hash : Text
  pub stored : user.password_hash ≡ some hash
  pub fits : x.verify_password password hash ≡ true

user_inj : (a b : UserRow) → ◌≡◌ {A = Result AuthError UserRow} (ok a) (ok b) → a ≡ b
user_inj a b h = cc

-- The access token names the user, and the one token that is added is the user's, with the digest of
-- the refresh token of the answer.
pub record IsGiven (x : Outside) (user : UserRow) (before after : AuthTables) (answer : AuthTokens)
    : Type 0 where
  pub claims : Claims
  pub signed : x.sign claims ≡ ok answer.access_token
  pub subject : claims.sub ≡ user.id
  pub organization : claims.org_id ≡ user.organization_id
  pub token : TokenRow
  pub added : after.tokens ≡ before.tokens ++ token ∷ []
  pub owned : token.user_id ≡ user.id
  pub kept : token.token_hash ≡ x.digest answer.refresh_token

check_login-Reads : (x : Outside) (email password : Text) → Reads (check_login x email password)
unfolding check_login
check_login-Reads x email password = search (reading, find_user-Reads) depth 12

check_login-FitsUser :
    (x : Outside) (email password : Text) (t : AuthTables) (known : UserRow)
    → (check_login x email password t).1 ≡ ok known
    → (fits : FitsUser x t email password) × (known ≡ fits.user)
unfolding check_login
check_login-FitsUser x email password t known a =
    let (found, b, h1) = bind-ok _ _ t (find_user-Reads x 0 (has_email email)) a in
    let (user, c, h2) =
      bind-ok _ _ t (lift-Reads AuthTables (ok_or found invalid_credentials)) h1 in
    let (hash, d, h3) =
      bind-ok _ _ t (lift-Reads AuthTables (ok_or user.password_hash invalid_credentials)) h2 in
    let (_, e, h4) = bind-ok _ _ t (require-Reads AuthTables (x.is_hash hash) _) h3 in
    let (_, f, h5) =
      bind-ok _ _ t (require-Reads AuthTables (x.verify_password password hash) _) h4 in
    (
      record {
        user = user;
        found = find_user-found x 0 (has_email email) t found b ∙ ok_or-eq-ok found _ c;
        hash = hash;
        stored = ok_or-eq-ok user.password_hash _ d;
        fits = require-ok (x.verify_password password hash) _ t f;
      },
      user_inj known user (sym h5),
    )

-- Tokens are given for a password only where a user that is not deleted has the address and a
-- password that it fits: the access token names this user and their organization, and exactly one
-- refresh token is added, which is this user's and is the one of the answer.
pub login-FitsUser :
    (x : Outside) (email password : Text) (t : AuthTables) (answer : AuthTokens)
    → (login x email password t).1 ≡ ok answer
    → (fits : FitsUser x t email password) × IsGiven x fits.user t
        (login x email password t).0
        answer
unfolding login
login-FitsUser x email password t answer h =
    let (user, a, h1) = bind-ok _ _ t (check_login-Reads x email password) h in
    let (fits, same) = check_login-FitsUser x email password t user a in
    let (_, b, h2, c) = bind-run _ _ t h1 in
    let (_, login_tokens) = update_last_login-keeps x 1 user.id t in
    let (_, stored) = issue_tokens-run x 2 user _ answer h2 in
    let (signed, random) = issue_tokens-answer x 2 user _ answer h2 in
    let token : TokenRow = record {
      user_id = user.id;
      token_hash = x.digest x.random;
      expires_at = x.clock 3 + x.refresh_ttl;
      revoked_at = none;
    } in
    (
      fits,
      record {
        claims = claims_of x 2 user;
        signed = signed;
        subject = ap (λ z. z.id) same;
        organization = ap (λ z. z.organization_id) same;
        token = token;
        added =
            ap (λ z. z.tokens)
              (bind-state _ _ t (check_login-Reads x email password) a ∙ c ∙ stored)
            ∙ ap (λ z. z ++ token ∷ []) login_tokens;
        owned = ap (λ z. z.id) same;
        kept = ap x.digest (sym random);
      },
    )
