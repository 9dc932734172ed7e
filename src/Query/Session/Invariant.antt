-- ===== src/Query/Session/Invariant.antt =====
-- What holds of a session registry between two calls.
use pairdbase.Common.{
  ℕ, ◌≡◌, refl, true, false, none, some, List, [], ◌∷◌, ◌++◌, arith, ◌==◌, if◌then◌else◌, mem,
  mem-append, Option-cases, inl, inr,
}
use pairdbase.Common.Maps.{Map, lookup, insert, remove, lookup-insert, lookup-remove}
use pairdbase.Connections.Domain.{DbType}
use pairdbase.Query.Session.{
  SessionRegistry, QuerySession, new, ids_of, opened, create, touch_session, touch, expire,
  remove_one, remove_all, remove_expired, expired_ids,
}

-- Each session is stored once, under its own id.
abbrev pub Keyed : Map QuerySession → Type 0
Keyed [] = Unit
Keyed ((k, s) ∷ m) = (s.session_id ≡ k) × (lookup k m ≡ none) × Keyed m

pub Keyed-insert :
    (k : ℕ) (s : QuerySession) (m : Map QuerySession)
    → s.session_id ≡ k
    → Keyed m
    → Keyed (insert k s m)
unfolding insert lookup
Keyed-insert k s [] e h = (e, refl, tt)
Keyed-insert k s ((j, t) ∷ m) e h = ground (arith, Keyed-insert k s m, lookup-insert k j s m)

Keyed-remove : (k : ℕ) (m : Map QuerySession) → Keyed m → Keyed (remove k m)
unfolding remove
Keyed-remove k [] h = tt
Keyed-remove k ((j, t) ∷ m) h = ground (arith, Keyed-remove k m, lookup-remove k j m)

pub Keyed-lookup :
    (j : ℕ) (m : Map QuerySession) (s : QuerySession)
    → Keyed m
    → lookup j m ≡ some s
    → s.session_id ≡ j
unfolding lookup
Keyed-lookup j [] s h e = cc
Keyed-lookup j ((k, t) ∷ m) s h e = ground (arith, Keyed-lookup j m s)

-- The ids listed for a user are those of the user's sessions, where they are still stored.
pub record IsValid (r : SessionRegistry) : Type 0 where
  pub keyed : Keyed r.sessions
  pub listed :
      (sid : ℕ) (s : QuerySession)
      → lookup sid r.sessions ≡ some s
      → mem sid (ids_of s.user_id r.by_user) ≡ true
  pub owned :
      (user sid : ℕ) (s : QuerySession)
      → mem sid (ids_of user r.by_user) ≡ true
      → lookup sid r.sessions ≡ some s
      → s.user_id ≡ user

-- The id was never given out: it is neither stored nor listed.
pub record IsFresh (sid : ℕ) (r : SessionRegistry) : Type 0 where
  pub not_stored : lookup sid r.sessions ≡ none
  pub not_listed : (user : ℕ) → mem sid (ids_of user r.by_user) ≡ false

new-IsValid : IsValid new
unfolding new lookup
new-IsValid = record { keyed = tt; listed = λ sid s e. cc; owned = λ user sid s m e. cc }

pub ids_of-insert :
    (user other : ℕ) (ids : List ℕ) (m : Map (List ℕ))
    → ids_of other (insert user ids m) ≡ (if user == other then ids else ids_of other m)
unfolding ids_of
ids_of-insert user other ids m = ground (arith, lookup-insert user other ids m)

pub create-IsValid :
    (r : SessionRegistry) (sid now connection user : ℕ) (db : DbType)
    → IsFresh sid r
    → IsValid r
    → IsValid (create r sid now connection user db).0
unfolding create
create-IsValid r sid now connection user db f v = record {
  keyed = Keyed-insert sid _ r.sessions refl v.keyed;
  listed = λ j s e.
      let session = opened sid now connection user db in
      let ids = ids_of user r.by_user ++ sid ∷ [] in
      ground (
        arith,
        lookup-insert sid j session r.sessions,
        ids_of-insert user s.user_id ids r.by_user,
        mem-append j (ids_of user r.by_user) (sid ∷ []),
        v.listed j s,
      );
  owned = λ u j s m e.
      let session = opened sid now connection user db in
      let ids = ids_of user r.by_user ++ sid ∷ [] in
      ground (
        arith,
        lookup-insert sid j session r.sessions,
        ids_of-insert user u ids r.by_user,
        mem-append j (ids_of user r.by_user) (sid ∷ []),
        v.owned u j s,
        f.not_listed u,
      );
}

pub touch-IsValid : (r : SessionRegistry) (sid now : ℕ) → IsValid r → IsValid (touch r sid now).0
unfolding touch
touch-IsValid r sid now v = elim (Option-cases (lookup sid r.sessions)) [
  | inl e ↦ rw (e, touch) v
  | inr (t, e) ↦
      rw (e, touch)
        (record {
          keyed =
              Keyed-insert sid (touch_session t now) r.sessions
                (Keyed-lookup sid r.sessions t v.keyed e) v.keyed;
          listed = λ j s h. ground (
            arith,
            lookup-insert sid j (touch_session t now) r.sessions,
            v.listed j s,
            v.listed j t,
          );
          owned = λ u j s m h. ground (
            arith,
            lookup-insert sid j (touch_session t now) r.sessions,
            v.owned u j s,
            v.owned u j t,
          );
        })
]

remove-IsValid :
    (r r' : SessionRegistry) (sid : ℕ)
    → r'.sessions ≡ remove sid r.sessions
    → r'.by_user ≡ r.by_user
    → IsValid r
    → IsValid r'
remove-IsValid r r' sid es eu v = record {
  keyed = rw es (Keyed-remove sid r.sessions v.keyed);
  listed = λ j s h. ground (arith, lookup-remove sid j r.sessions, v.listed j s);
  owned = λ u j s m h. ground (arith, lookup-remove sid j r.sessions, v.owned u j s);
}

expire-IsValid : (r : SessionRegistry) (sid : ℕ) → IsValid r → IsValid (expire r sid)
unfolding expire
expire-IsValid r sid v = remove-IsValid r (expire r sid) sid (ground arith) (ground arith) v

remove_one-IsValid : (r : SessionRegistry) (sid : ℕ) → IsValid r → IsValid (remove_one sid r)
unfolding remove_one
remove_one-IsValid r sid v = elim (Option-cases (lookup sid r.sessions)) [
  | inl e ↦ rw (e, remove_one) v
  | inr (s, e) ↦ rw (e, remove_one) (remove-IsValid r _ sid refl refl v)
]

remove_all-IsValid : (ids : List ℕ) (r : SessionRegistry) → IsValid r → IsValid (remove_all ids r)
unfolding remove_all
remove_all-IsValid [] r v = v
remove_all-IsValid (sid ∷ ids) r v =
    remove_all-IsValid ids (remove_one sid r) (remove_one-IsValid r sid v)

-- A call that changes the registry. Session ids come from a generator that repeats none.
pub data Step (r : SessionRegistry) : SessionRegistry → Type 0 where
  creates :
      (sid now connection user : ℕ) (db : DbType)
      → IsFresh sid r
      → Step r (create r sid now connection user db).0
  touches : (sid now : ℕ) → Step r (touch r sid now).0
  expires : (sid : ℕ) → Step r (expire r sid)
  sweeps : (now : ℕ) → Step r (remove_expired r now)

pub data Reach : SessionRegistry → Type 0 where
  start : Reach new
  next : {r r' : SessionRegistry} → Reach r → Step r r' → Reach r'

Step-IsValid : {r r' : SessionRegistry} → Step r r' → IsValid r → IsValid r'
unfolding remove_expired
Step-IsValid {r} (creates sid now connection user db f) v =
    create-IsValid r sid now connection user db f v
Step-IsValid {r} (touches sid now) v = touch-IsValid r sid now v
Step-IsValid {r} (expires sid) v = expire-IsValid r sid v
Step-IsValid {r} (sweeps now) v = remove_all-IsValid (expired_ids now r.sessions) r v

-- After any calls, in any order, each session is stored once and under its own id, is listed for
-- its user, and no other user's list leads to it.
pub Reach-IsValid : {r : SessionRegistry} → Reach r → IsValid r
Reach-IsValid start = new-IsValid
Reach-IsValid (next h s) = Step-IsValid s (Reach-IsValid h)
