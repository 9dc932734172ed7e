-- ===== src/Query/Session.antt =====
-- Query sessions: crates/app/src/features/query/session.rs. `Utc::now()` and `Uuid::new_v4()` are
-- arguments. A call that reads the clock once for each session is given one reading. What is sent
-- on the broadcast channel is kept as a list, oldest first.
pub mod Invariant
pub mod Lookup
pub mod Expiry
use pairdbase.Common.{
  ℕ, ◌+◌, ◌-◌, ◌*◌, ◌/◌, Bool, not, ◌&&◌, Option, none, some, List, [], ◌∷◌, ◌++◌, ltb, ◌==◌,
  if◌then◌else◌, keep, map,
}
use pairdbase.Common.Maps.{Map, lookup, insert, remove, contains_key}
use pairdbase.Connections.Domain.{
  DbType, postgresql, mysql, mongodb, redis, sqlite, sqlserver, oracle,
}

-- Times and durations count nanoseconds.
abbrev pub second : ℕ
second = 1000000000

abbrev pub minutes : ℕ → ℕ
minutes n = n * 60 * second

abbrev pub hours : ℕ → ℕ
hours n = n * 3600 * second

pub record ConnectionSlot : Type 0 where
  pub connection_id : ℕ
  pub user_id : ℕ
  pub db_type : DbType

unfoldable pub ttl_for : DbType → ℕ
ttl_for oracle = minutes 15
ttl_for sqlserver = minutes 30
ttl_for postgresql = minutes 60
ttl_for mysql = minutes 60
ttl_for mongodb = minutes 60
ttl_for redis = minutes 60
ttl_for sqlite = hours 24

pub data SessionStatus : Type 0 where
  active idle expired_status : SessionStatus

pub data SessionEvent : Type 0 where
  -- the session, the connection and the seconds left
  expiry_warning : ℕ → ℕ → ℕ → SessionEvent
  -- the session and the connection
  expired : ℕ → ℕ → SessionEvent
  -- the session, the connection and the new time of expiry
  renewed : ℕ → ℕ → ℕ → SessionEvent

pub record QuerySession : Type 0 where
  pub session_id : ℕ
  pub connection_id : ℕ
  pub user_id : ℕ
  pub db_type : DbType
  pub status : SessionStatus
  pub created_at : ℕ
  pub last_active : ℕ
  pub expires_at : ℕ

unfoldable pub is_expired : QuerySession → ℕ → Bool
is_expired s now = ltb s.expires_at now

-- `-` stops at 0, as `.max(0)` does.
unfoldable pub time_remaining_secs : QuerySession → ℕ → ℕ
time_remaining_secs s now = (s.expires_at - now) / second

unfoldable pub touch_session : QuerySession → ℕ → QuerySession
touch_session s now = record s {
  last_active = now;
  expires_at = now + ttl_for s.db_type;
  status = active;
}

pub record SessionRegistry : Type 0 where
  pub sessions : Map QuerySession
  pub by_user : Map (List ℕ)
  pub events : List SessionEvent

unfoldable pub new : SessionRegistry
new = record { sessions = []; by_user = []; events = [] }

-- `DashMap::entry(..).or_default()`, read.
abbrev or_default : Option (List ℕ) → List ℕ
or_default none = []
or_default (some ids) = ids

unfoldable pub ids_of : ℕ → Map (List ℕ) → List ℕ
ids_of user m = or_default (lookup user m)

abbrev pub opened : ℕ → ℕ → ℕ → ℕ → DbType → QuerySession
opened session_id now connection_id user_id db_type = record {
  session_id = session_id;
  connection_id = connection_id;
  user_id = user_id;
  db_type = db_type;
  status = active;
  created_at = now;
  last_active = now;
  expires_at = now + ttl_for db_type;
}

unfoldable pub create : SessionRegistry → ℕ → ℕ → ℕ → ℕ → DbType → SessionRegistry × QuerySession
unfolding ids_of
create r session_id now connection_id user_id db_type =
    let session = opened session_id now connection_id user_id db_type in
    (
      record r {
        sessions = insert session_id session r.sessions;
        by_user = insert user_id (ids_of user_id r.by_user ++ session_id ∷ []) r.by_user;
      },
      session,
    )

unfoldable pub get : SessionRegistry → ℕ → Option QuerySession
get r session_id = lookup session_id r.sessions

-- A session that is stored, is for the connection and has not expired.
abbrev pub usable : ℕ → ℕ → Option QuerySession → Option QuerySession
usable connection_id now none = none
usable connection_id now (some s) =
    if s.connection_id == connection_id && not (is_expired s now) then some s else none

abbrev or_else : Option QuerySession → Option QuerySession → Option QuerySession
or_else none later = later
or_else (some s) later = some s

-- The `find_map` over the sessions of a user.
unfoldable pub find_usable : Map QuerySession → ℕ → ℕ → List ℕ → Option QuerySession
unfolding is_expired
find_usable m connection_id now [] = none
find_usable m connection_id now (sid ∷ ids) =
    or_else (usable connection_id now (lookup sid m)) (find_usable m connection_id now ids)

unfoldable pub get_for_connection : SessionRegistry → ℕ → ℕ → ℕ → Option QuerySession
unfolding find_usable
get_for_connection r user_id connection_id now = elim (lookup user_id r.by_user) [
  | none ↦ none
  | some session_ids ↦ find_usable r.sessions connection_id now session_ids
]

unfoldable pub touch : SessionRegistry → ℕ → ℕ → SessionRegistry × Option ℕ
unfolding touch_session
touch r session_id now = elim (lookup session_id r.sessions) [
  | none ↦ (r, none)
  | some s ↦
      (let s' = touch_session s now in
        (
          record r {
            sessions = insert session_id s' r.sessions;
            events = r.events ++ renewed session_id s.connection_id s'.expires_at ∷ [];
          },
          some s'.expires_at,
        ))
]

-- The session is marked, announced and then removed, all in one call.
unfoldable pub expire : SessionRegistry → ℕ → SessionRegistry
expire r session_id = elim (lookup session_id r.sessions) [
  | none ↦ record r { sessions = remove session_id r.sessions }
  | some s ↦ record r {
    sessions = remove session_id r.sessions;
    events = r.events ++ expired session_id s.connection_id ∷ [];
  }
]

abbrev live_part : ℕ → Option QuerySession → List QuerySession → List QuerySession
live_part now none rest = rest
live_part now (some s) rest = if not (is_expired s now) then s ∷ rest else rest

-- The `filter_map` over the sessions of a user.
unfoldable pub live_sessions : Map QuerySession → ℕ → List ℕ → List QuerySession
unfolding is_expired
live_sessions m now [] = []
live_sessions m now (sid ∷ ids) = live_part now (lookup sid m) (live_sessions m now ids)

unfoldable pub list_for_user : SessionRegistry → ℕ → ℕ → List QuerySession
unfolding live_sessions ids_of
list_for_user r user_id now = live_sessions r.sessions now (ids_of user_id r.by_user)

unfoldable pub expired_ids : ℕ → Map QuerySession → List ℕ
unfolding is_expired
expired_ids now [] = []
expired_ids now ((k, s) ∷ m) =
    let rest = expired_ids now m in if is_expired s now then s.session_id ∷ rest else rest

unfoldable pub remove_one : ℕ → SessionRegistry → SessionRegistry
remove_one session_id r = elim (lookup session_id r.sessions) [
  | none ↦ r
  | some s ↦ record r {
    sessions = remove session_id r.sessions;
    events = r.events ++ expired session_id s.connection_id ∷ [];
  }
]

unfoldable pub remove_all : List ℕ → SessionRegistry → SessionRegistry
unfolding remove_one
remove_all [] r = r
remove_all (sid ∷ ids) r = remove_all ids (remove_one sid r)

unfoldable pub remove_expired : SessionRegistry → ℕ → SessionRegistry
unfolding remove_all expired_ids
remove_expired r now = remove_all (expired_ids now r.sessions) r

-- Slots of open connections, by connection.
unfoldable pub register : Map ConnectionSlot → ConnectionSlot → Map ConnectionSlot
register slots slot = insert slot.connection_id slot slots

unfoldable pub get_slot : Map ConnectionSlot → ℕ → Option ConnectionSlot
get_slot slots connection_id = lookup connection_id slots

unfoldable pub remove_slot : Map ConnectionSlot → ℕ → Map ConnectionSlot
remove_slot slots connection_id = remove connection_id slots

unfoldable pub slot_is_connected : Map ConnectionSlot → ℕ → Bool
slot_is_connected slots connection_id = contains_key connection_id slots

unfoldable pub slots_for_user : Map ConnectionSlot → ℕ → List ConnectionSlot
slots_for_user slots user_id = keep (λ s. s.user_id == user_id) (map (λ e. e.1) slots)
