-- ===== src/Query/Session/Expiry.antt =====
-- The end of sessions: expire and remove_expired of crates/app/src/features/query/session.rs.
use pairdbase.Common.{
  any_of-append, ℕ, ◌≡◌, refl, Bool, false, ◌&&◌, ◌||◌, Option, none, some, List, [], ◌∷◌, arith,
  ◌==◌, mem, any_of, is_some, if◌then◌else◌, Option-cases, inl, inr,
}
use pairdbase.Common.Maps.{Map, lookup, lookup-remove}
use pairdbase.Query.Session.{
  SessionRegistry, QuerySession, SessionEvent, expired, is_expired, expired_ids, remove_one,
  remove_all, remove_expired, expire,
}
use pairdbase.Query.Session.Invariant.{IsValid, Keyed}

-- Whether the event announces the end of the session.
abbrev pub announces : ℕ → SessionEvent → Bool
announces sid (expired j c) = j == sid
announces sid _ = false

-- Whether a stored session has run out.
abbrev pub run_out : ℕ → Option QuerySession → Bool
run_out now none = false
run_out now (some s) = is_expired s now

mem-expired_ids :
    (now j : ℕ) (m : Map QuerySession)
    → Keyed m
    → mem j (expired_ids now m) ≡ run_out now (lookup j m)
unfolding expired_ids lookup
mem-expired_ids now j [] h = refl
mem-expired_ids now j ((k, s) ∷ m) h = ground (arith, mem-expired_ids now j m h.2)

lookup-remove_one :
    (sid j : ℕ) (r : SessionRegistry)
    → lookup j (remove_one sid r).sessions ≡ (if sid == j then none else lookup j r.sessions)
unfolding remove_one
lookup-remove_one sid j r = ground (arith, lookup-remove sid j r.sessions)

lookup-remove_all :
    (ids : List ℕ) (j : ℕ) (r : SessionRegistry)
    → lookup j (remove_all ids r).sessions ≡ (if mem j ids then none else lookup j r.sessions)
unfolding remove_all
lookup-remove_all [] j r = refl
lookup-remove_all (sid ∷ ids) j r =
    ground (arith, lookup-remove_all ids j (remove_one sid r), lookup-remove_one sid j r)

announces-remove_one :
    (sid j : ℕ) (r : SessionRegistry)
    → any_of (announces j) (remove_one sid r).events
      ≡ (any_of (announces j) r.events || (sid == j && is_some (lookup j r.sessions)))
unfolding remove_one
announces-remove_one sid j r = elim (Option-cases (lookup sid r.sessions)) [
  | inl e ↦ rw (e, remove_one) (ground arith)
  | inr (s, e) ↦
      rw (e, remove_one)
        (ground (arith, any_of-append (announces j) r.events (expired sid s.connection_id ∷ [])))
]

announces-remove_all :
    (ids : List ℕ) (j : ℕ) (r : SessionRegistry)
    → any_of (announces j) (remove_all ids r).events
      ≡ (any_of (announces j) r.events || (mem j ids && is_some (lookup j r.sessions)))
unfolding remove_all
announces-remove_all [] j r = ground arith
announces-remove_all (sid ∷ ids) j r = ground (
  arith,
  announces-remove_all ids j (remove_one sid r),
  announces-remove_one sid j r,
  lookup-remove_one sid j r,
)

-- A sweep removes exactly the sessions that have expired and leaves the others as they are, and
-- the end of a session is announced after it exactly if it was announced before or the session was
-- stored and had expired.
pub remove_expired_sweeps :
    (r : SessionRegistry) (now sid : ℕ)
    → IsValid r
    → (lookup sid (remove_expired r now).sessions
        ≡ (if run_out now (lookup sid r.sessions) then none else lookup sid r.sessions))
      × (any_of (announces sid) (remove_expired r now).events
          ≡ (any_of (announces sid) r.events || run_out now (lookup sid r.sessions)))
unfolding remove_expired
remove_expired_sweeps r now sid v =
    let m = mem-expired_ids now sid r.sessions v.keyed in
    (
      rw (lookup-remove_all (expired_ids now r.sessions) sid r, m),
      rw (announces-remove_all (expired_ids now r.sessions) sid r, m) (ground arith),
    )

-- A session that is told to expire is gone and every other stays as it is; after it the end of a
-- session has been announced exactly if it was before, or it is this session and it was stored.
pub expire_ends :
    (r : SessionRegistry) (sid j : ℕ)
    → (lookup j (expire r sid).sessions ≡ (if sid == j then none else lookup j r.sessions))
      × (any_of (announces j) (expire r sid).events
          ≡ (any_of (announces j) r.events || (sid == j && is_some (lookup j r.sessions))))
unfolding expire
expire_ends r sid j = elim (Option-cases (lookup sid r.sessions)) [
  | inl e ↦ rw (e, expire) (lookup-remove sid j r.sessions, ground arith)
  | inr (s, e) ↦
      rw (e, expire)
        (
          lookup-remove sid j r.sessions,
          ground (arith, any_of-append (announces j) r.events (expired sid s.connection_id ∷ [])),
        )
]
