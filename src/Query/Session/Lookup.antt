-- ===== src/Query/Session/Lookup.antt =====
-- Which session a user gets for a connection, and for how long.
use mathlib.Core.Path.{subst}
use pairdbase.Common.{sym, ◌≢◌, ℕ, ◌+◌, ◌≤◌, ◌≡◌, refl, true, none, some, List, [], ◌∷◌, arith, mem}
use pairdbase.Common.Maps.{Map, lookup, lookup-insert}
use pairdbase.Connections.Domain.{DbType}
use pairdbase.Query.Session.{
  SessionRegistry, QuerySession, ids_of, opened, create, find_usable, get_for_connection, touch,
  touch_session, ttl_for,
}
use pairdbase.Query.Session.Invariant.{
  create-IsValid, touch-IsValid, Keyed, Keyed-lookup, IsValid, IsFresh,
}

-- The session is stored, is the user's, is for the connection and has not expired.
pub record IsUsable (r : SessionRegistry) (user connection now : ℕ) (s : QuerySession)
    : Type 0 where
  pub stored : lookup s.session_id r.sessions ≡ some s
  pub mine : s.user_id ≡ user
  pub same_connection : s.connection_id ≡ connection
  pub unexpired : now ≤ s.expires_at

find_usable-stored :
    (m : Map QuerySession) (connection now : ℕ) (ids : List ℕ) (s : QuerySession)
    → Keyed m
    → find_usable m connection now ids ≡ some s
    → (mem s.session_id ids ≡ true)
      × (lookup s.session_id m ≡ some s)
      × (s.connection_id ≡ connection)
      × (now ≤ s.expires_at)
unfolding find_usable
find_usable-stored m connection now [] s k h = cc
find_usable-stored m connection now (sid ∷ ids) s k h =
    ground (arith, find_usable-stored m connection now ids s k, Keyed-lookup sid m s k)

find_usable_complete :
    (m : Map QuerySession) (connection now : ℕ) (ids : List ℕ) (sid : ℕ) (s : QuerySession)
    → mem sid ids ≡ true
    → lookup sid m ≡ some s
    → s.connection_id ≡ connection
    → now ≤ s.expires_at
    → find_usable m connection now ids ≢ none
unfolding find_usable
find_usable_complete m connection now [] sid s h e c l = cc
find_usable_complete m connection now (j ∷ ids) sid s h e c l =
    ground (arith, find_usable_complete m connection now ids sid s)

get_for_connection-ids_of :
    (r : SessionRegistry) (user connection now : ℕ)
    → get_for_connection r user connection now
      ≡ find_usable r.sessions connection now (ids_of user r.by_user)
unfolding get_for_connection find_usable ids_of
get_for_connection-ids_of r user connection now = ground arith

-- In a valid registry the session that a user is given for a connection is stored, is the user's
-- own, is for that connection and has not expired.
pub get_for_connection-IsUsable :
    (r : SessionRegistry) (user connection now : ℕ) (s : QuerySession)
    → IsValid r
    → get_for_connection r user connection now ≡ some s
    → IsUsable r user connection now s
get_for_connection-IsUsable r user connection now s v h =
    let (m, l, c, t) =
      find_usable-stored r.sessions connection now (ids_of user r.by_user) s v.keyed
        (rw (get_for_connection-ids_of r user connection now) at h) in
    record {
      stored = l;
      mine = v.owned user s.session_id s m l;
      same_connection = c;
      unexpired = t;
    }

-- In a valid registry a user who has a usable session for a connection is given one, though perhaps
-- another.
pub get_for_connection-ne-none :
    (r : SessionRegistry) (user connection now : ℕ) (s : QuerySession)
    → IsValid r
    → IsUsable r user connection now s
    → get_for_connection r user connection now ≢ none
get_for_connection-ne-none r user connection now s v u =
    rw (get_for_connection-ids_of r user connection now) (
      find_usable_complete r.sessions connection now (ids_of user r.by_user) s.session_id s
        (rw u.mine at (v.listed s.session_id s u.stored)) u.stored u.same_connection u.unexpired)

created :
    (r : SessionRegistry) (sid now connection user : ℕ) (db : DbType)
    → lookup sid (create r sid now connection user db).0.sessions
      ≡ some (opened sid now connection user db)
unfolding create
created r sid now connection user db =
    ground (arith, lookup-insert sid sid (opened sid now connection user db) r.sessions)

touched :
    (r : SessionRegistry) (sid now : ℕ) (s : QuerySession)
    → lookup sid r.sessions ≡ some s
    → lookup sid (touch r sid now).0.sessions ≡ some (touch_session s now)
unfolding touch
touched r sid now s e = ground (arith, lookup-insert sid sid (touch_session s now) r.sessions)

-- From its creation until its time to live is over a session serves its user on its connection.
pub create_serves :
    (r : SessionRegistry) (sid now connection user : ℕ) (db : DbType) (t : ℕ)
    → IsValid r
    → IsFresh sid r
    → t ≤ now + ttl_for db
    → get_for_connection (create r sid now connection user db).0 user connection t ≢ none
create_serves r sid now connection user db t v f h =
    get_for_connection-ne-none _ user connection t (opened sid now connection user db)
      (create-IsValid r sid now connection user db f v)
      (record {
        stored = created r sid now connection user db;
        mine = refl;
        same_connection = refl;
        unexpired = h;
      })

-- Activity renews a session, whether it has expired or not: from then on it serves its user for a
-- whole time to live, and every other session is as it was.
pub touch_serves :
    (r : SessionRegistry) (sid now t : ℕ) (s : QuerySession)
    → IsValid r
    → lookup sid r.sessions ≡ some s
    → t ≤ now + ttl_for s.db_type
    → (get_for_connection (touch r sid now).0 s.user_id s.connection_id t ≢ none)
      × ((touch r sid now).1 ≡ some (now + ttl_for s.db_type))
      × ((j : ℕ) → j ≢ sid → lookup j (touch r sid now).0.sessions ≡ lookup j r.sessions)
touch_serves r sid now t s v e h = (
  get_for_connection-ne-none _ s.user_id s.connection_id t (touch_session s now)
      (touch-IsValid r sid now v)
      (unfold touch_session in
        record {
          stored =
              subst (λ i. lookup i (touch r sid now).0.sessions ≡ some (touch_session s now))
                (sym (Keyed-lookup sid r.sessions s v.keyed e)) (touched r sid now s e);
          mine = refl;
          same_connection = refl;
          unexpired = h;
        }),
  unfold touch in ground arith,
  λ j ne. unfold touch in ground (arith, lookup-insert sid j (touch_session s now) r.sessions),
)
