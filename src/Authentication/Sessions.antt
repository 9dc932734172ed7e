-- ===== src/Authentication/Sessions.antt =====
-- What the ends and changes of a session do to refresh tokens, and who gets tokens by a password
-- (crates/app/src/features/auth/use_cases.rs).
use pairdbase.Common.{
  ℕ, ◌+◌, ◌≡◌, refl, Bool, true, false, not, ◌&&◌, none, some, List, [], ◌∷◌, ◌++◌, ok, arith,
  update_rows, ap, ◌∙◌, sym, is_some, ◌==◌, any_of, Bool-cases, inl, inr, Result, map_err,
  map_err-eq-ok,
}
use pairdbase.Common.Actions.{
  ◌>>=◌, Reads, require-Reads, return-Reads, bind-Reads, get_state-Reads, lift-Reads,
  may_fail-Reads, bind-ok, bind-run,
}
use pairdbase.Text.{Text, text_eq, text_eq→≡}
use pairdbase.Authentication.Database.{
  AuthError, auth_internal, UserRow, TokenRow, AuthTables, AuthTokens, Outside,
}
use pairdbase.Authentication.{
  claims_of, update_last_login, find_user, find_refresh_token, is_usable_token, token_user,
  revoked_token, revoke_tokens, revoke_refresh_token, revoke_all_user_tokens, store_refresh_token,
  issue_tokens, logout, logout_all,
}

pub ruleset reading =
    (bind-Reads, get_state-Reads, lift-Reads, return-Reads, may_fail-Reads, require-Reads)

-- The digest opens no session, at any time.
abbrev pub IsRefused : AuthTables → Text → Type 0
IsRefused t hash = (now : ℕ) → token_user t.tokens hash now ≡ none

pub revoked-IsRefused :
    (hash : Text) (at now : ℕ) (rows : List TokenRow)
    → token_user
        (update_rows
          (λ r. text_eq r.token_hash hash && not (is_some r.revoked_at))
          (revoked_token at)
          rows)
        hash
        now
      ≡ none
unfolding token_user is_usable_token revoked_token
revoked-IsRefused hash at now [] = refl
revoked-IsRefused hash at now (r ∷ rs) = ground (arith, revoked-IsRefused hash at now rs)

pub revoke_tokens-run :
    (x : Outside) (i : ℕ) (p : TokenRow → Bool) (t : AuthTables) (r : Unit {0})
    → (revoke_tokens x i p t).1 ≡ ok r
    → (revoke_tokens x i p t).0 ≡ record t {
      tokens =
          update_rows (λ r. p r && not (is_some r.revoked_at)) (revoked_token (x.clock i)) t.tokens;
    }
unfolding revoke_tokens ◌>>=◌
revoke_tokens-run x i p t r h = ground arith

-- After a logout without an error the token opens no session.
pub logout-IsRefused :
    (x : Outside) (token : Text) (t : AuthTables)
    → (logout x token t).1 ≡ ok tt
    → IsRefused (logout x token t).0 (x.digest token)
unfolding logout revoke_refresh_token
logout-IsRefused x token t h now =
    ap (λ z. token_user z.tokens (x.digest token) now)
      (revoke_tokens-run x 0 (λ r. text_eq r.token_hash (x.digest token)) t tt h)
    ∙ revoked-IsRefused (x.digest token) (x.clock 0) now t.tokens

others_revoked :
    (user other : ℕ) (hash : Text) (at now : ℕ) (rows : List TokenRow)
    → token_user
        (update_rows (λ r. r.user_id == user && not (is_some r.revoked_at)) (revoked_token at) rows)
        hash
        now
      ≡ some other
    → (other == user) ≡ false
unfolding token_user is_usable_token revoked_token
others_revoked user other hash at now [] h = cc
others_revoked user other hash at now (r ∷ rs) h =
    ground (arith, others_revoked user other hash at now rs)

-- After a logout everywhere without an error no token opens a session of the user.
pub logout_all-others :
    (x : Outside) (user other : ℕ) (t : AuthTables) (hash : Text) (now : ℕ)
    → (logout_all x user t).1 ≡ ok tt
    → token_user (logout_all x user t).0.tokens hash now ≡ some other
    → (other == user) ≡ false
unfolding logout_all revoke_all_user_tokens
logout_all-others x user other t hash now h k =
    others_revoked user other hash (x.clock 0) now t.tokens (
      sym (
        ap (λ z. token_user z.tokens hash now)
          (revoke_tokens-run x 0 (λ r. r.user_id == user) t tt h))
      ∙ k)

pub find_user-Reads : (x : Outside) (i : ℕ) (p : UserRow → Bool) → Reads (find_user x i p)
unfolding find_user
find_user-Reads x i p = search reading

pub find_refresh_token-Reads :
    (x : Outside) (i : ℕ) (hash : Text) → Reads (find_refresh_token x i hash)
unfolding find_refresh_token
find_refresh_token-Reads x i hash = search reading

pub issue_tokens-run :
    (x : Outside) (i : ℕ) (user : UserRow) (t : AuthTables) (answer : AuthTokens)
    → (issue_tokens x i user t).1 ≡ ok answer
    → (any_of (λ r. text_eq r.token_hash (x.digest x.random)) t.tokens ≡ false)
      × ((issue_tokens x i user t).0 ≡ record t {
        tokens =
            t.tokens
            ++ record {
              user_id = user.id;
              token_hash = x.digest x.random;
              expires_at = x.clock (i + 1) + x.refresh_ttl;
              revoked_at = none;
            }
              ∷ [];
      })
unfolding issue_tokens store_refresh_token ◌>>=◌
issue_tokens-run x i user t answer h = (ground arith, ground arith)

pub usable_there :
    (hash : Text) (now : ℕ) (rows : List TokenRow) (user : ℕ)
    → token_user rows hash now ≡ some user
    → any_of (λ r. text_eq r.token_hash hash) rows ≡ true
unfolding token_user is_usable_token
usable_there hash now [] user h = cc
usable_there hash now (r ∷ rs) user h = ground (arith, usable_there hash now rs user)

pub still_there :
    (hash : Text) (p : TokenRow → Bool) (at : ℕ) (rows : List TokenRow)
    → any_of (λ r. text_eq r.token_hash hash) rows ≡ true
    → any_of (λ r. text_eq r.token_hash hash) (update_rows p (revoked_token at) rows) ≡ true
unfolding revoked_token
still_there hash p at [] h = h
still_there hash p at (r ∷ rs) h = ground (arith, still_there hash p at rs)

pub append-refused :
    (hash : Text) (now : ℕ) (new : TokenRow) (rows : List TokenRow)
    → text_eq new.token_hash hash ≡ false
    → token_user rows hash now ≡ none
    → token_user (rows ++ new ∷ []) hash now ≡ none
unfolding token_user is_usable_token
append-refused hash now new [] n h = ground arith
append-refused hash now new (r ∷ rs) n h = ground (arith, append-refused hash now new rs n)

pub other_digest :
    (new hash : Text) (rows : List TokenRow)
    → any_of (λ r. text_eq r.token_hash hash) rows ≡ true
    → any_of (λ r. text_eq r.token_hash new) rows ≡ false
    → text_eq new hash ≡ false
other_digest new hash rows h k = elim (Bool-cases (text_eq new hash)) [
  | inr n ↦ n
  | inl e ↦
      (let same = text_eq→≡ new hash e in
        let there = ap (λ z. any_of (λ r. text_eq r.token_hash z) rows) same in
        absurd (ground arith))
]

ok_inj : (a b : AuthTokens) → ◌≡◌ {A = Result AuthError AuthTokens} (ok a) (ok b) → a ≡ b
ok_inj a b h = cc

-- The tokens of an answer name the user, and the stored row is that of the refresh token.
pub issue_tokens-answer :
    (x : Outside) (i : ℕ) (user : UserRow) (t : AuthTables) (answer : AuthTokens)
    → (issue_tokens x i user t).1 ≡ ok answer
    → (x.sign (claims_of x i user) ≡ ok answer.access_token) × (answer.refresh_token ≡ x.random)
unfolding issue_tokens
issue_tokens-answer x i user t answer h =
    let signing = map_err auth_internal (x.sign (claims_of x i user)) in
    let (access, a, h1) = bind-ok _ _ t (lift-Reads AuthTables signing) h in
    let (_, _, h2, _) = bind-run _ _ t h1 in
    let given = ok_inj _ answer h2 in
    (
      map_err-eq-ok auth_internal (x.sign (claims_of x i user)) a
          ∙ ap (λ z. ok z.access_token) given,
      ap (λ z. z.refresh_token) (sym given),
    )

pub update_last_login-keeps :
    (x : Outside) (i user_id : ℕ) (t : AuthTables)
    → ((update_last_login x i user_id t).0.accounts ≡ t.accounts)
      × ((update_last_login x i user_id t).0.tokens ≡ t.tokens)
unfolding update_last_login ◌>>=◌
update_last_login-keeps x i user_id t = (ground arith, ground arith)
