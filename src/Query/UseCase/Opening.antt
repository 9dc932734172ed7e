-- ===== src/Query/UseCase/Opening.antt =====
-- Opening and closing sessions, and queries on databases without SQL.
use pairdbase.Common.{
  ap, ℕ, ◌≤◌, ◌≡◌, ◌≢◌, refl, true, Option, none, some, List, Result, ok, err, arith, Option-cases,
  Bool-cases, Result-cases, inl, inr,
}
use pairdbase.Common.Maps.{contains_key}
use pairdbase.Text.{Text, Unicode, codes, split_whitespace, join}
use pairdbase.Text.Words.{split_whitespace-join_lem}
use pairdbase.Connections.Domain.{DbType}
use pairdbase.Query.Domain.{
  ExecuteRequest, QueryEvent, QueryError, QueryHistoryRecord, StatementType, other,
}
use pairdbase.Query.Guard.{SqlParser, evaluate, is_nosql}
use pairdbase.Query.Repository.{PermissionRow, get_permission}
use pairdbase.Query.Session.{QuerySession, get_for_connection, is_expired}
use pairdbase.Query.Session.Invariant.{IsValid, IsFresh, create-IsValid}
use pairdbase.Query.Session.Lookup.{create_serves}
use pairdbase.Query.Executor.{Drivers, RawResult, ExecutionPool}
use pairdbase.Query.UseCase.{
  World, Readings, finish, report, execute, hash_query, open_session, start_session,
}

-- The layout of a query does not change its hash: the words joined by one space have the same one.
pub hash_query_layout :
    (sha256_hex : Text → Text) (query : Text)
    → hash_query sha256_hex (join (codes " ") (split_whitespace query))
      ≡ hash_query sha256_hex query
unfolding hash_query
hash_query_layout sha256_hex query = ap sha256_hex (split_whitespace-join_lem query)

module _ {H : Type 0} (w : World H) (connection_id user sid looked_up_at created_at : ℕ) where
  -- The session registry after a success is valid and finds a session for the user.
  pub record Opens (a : Result QueryError QuerySession × World H) : Type 0 where
    pub valid : IsValid a.1.sessions
    pub found :
        (s : QuerySession)
        → a.0 ≡ ok s
        → get_for_connection a.1.sessions user connection_id looked_up_at ≢ none

  start-Opens :
      (v : World H) (db : DbType)
      → v.sessions ≡ w.sessions
      → IsValid w.sessions
      → IsFresh sid w.sessions
      → looked_up_at ≤ created_at
      → Opens (start_session v connection_id user sid created_at db)
  unfolding start_session
  start-Opens v db same ok_w f h = record {
    valid = rw same (create-IsValid w.sessions sid created_at connection_id user db f ok_w);
    found = λ s e. rw same (
        create_serves w.sessions sid created_at connection_id user db looked_up_at ok_w f
          (omega arith));
  }

  -- From a valid registry, with a fresh id and a clock that does not run backwards: the registry is
  -- valid after open_session, and if a session is returned, the user has a usable session for the
  -- connection then.
  pub open_session-Opens :
      (connection : Result Text DbType) (pool : Result Text (ExecutionPool H))
      → IsValid w.sessions
      → IsFresh sid w.sessions
      → looked_up_at ≤ created_at
      → Opens (open_session w connection_id user sid looked_up_at created_at connection pool)
  unfolding open_session
  open_session-Opens connection pool v f h =
      elim (Option-cases (get_for_connection w.sessions user connection_id looked_up_at)) [
        | inr (s, e) ↦ rw (e, open_session) (record { valid = v; found = λ t k n. cc })
        | inl e ↦ elim (Result-cases connection) [
          | inr (x, k) ↦ rw (e, k, open_session) (record { valid = v; found = λ t q. cc })
          | inl (db, k) ↦ elim (Bool-cases (contains_key connection_id w.pools)) [
            | inl there ↦ rw (e, k, there, open_session) (start-Opens w db refl v f h)
            | inr missing ↦ elim (Result-cases pool) [
              | inr (x, q) ↦
                  rw (e, k, missing, q, open_session) (record { valid = v; found = λ t r. cc })
              | inl (p, q) ↦ rw (e, k, missing, q, open_session) (start-Opens _ db refl v f h)
            ]
          ]
        ]
      ]

module _ {H V : Type 0} where
  finish-answer :
      (w w' : World H) (fault : Option Text) (h : QueryHistoryRecord) (events : List (QueryEvent V))
      → (finish w fault h events).0 ≡ (finish w' fault h events).0
  unfolding finish
  finish-answer w w' none h events = refl
  finish-answer w w' (some x) h events = refl

module _ {H V Row Doc E : Type 0} (u : Unicode) (parse_sql : SqlParser E) (sha256_hex : Text → Text)
    (d : Drivers H V Row Doc) (w : World H) (req : ExecuteRequest) (user org : ℕ) (i : Readings)
    (table : List PermissionRow) where
  report-answer :
      (v v' : World H) (hash : Text) (t : StatementType) (r : Result QueryError (RawResult V))
      → (report v req user org hash i t r).0 ≡ (report v' req user org hash i t r).0
  unfolding report
  report-answer v v' hash t (ok raw) = finish-answer v v' i.history_fault _ _
  report-answer v v' hash t (err x) = finish-answer v v' i.history_fault _ _

  -- On a MongoDB or Redis connection the permission table is not heeded: a user with a session gets
  -- the same answer whatever permissions it holds, and whatever it denies, if it can be read.
  pub execute_nosql_ignores_permissions :
      (s : QuerySession)
      → get_for_connection w.sessions user req.connection_id i.looked_up_at ≡ some s
      → is_nosql s.db_type ≡ true
      → i.permission_fault ≡ none
      → (execute u parse_sql sha256_hex d w req user org i).0
        ≡ (execute u parse_sql sha256_hex d (record w { permissions = table }) req user org i).0
  unfolding execute get_permission evaluate
  execute_nosql_ignores_permissions s e n f = elim (Bool-cases (is_expired s i.checked_at)) [
    | inl late ↦ rw (e, late, execute)
    | inr live ↦ rw (e, live, f, n, execute, get_permission, evaluate) (report-answer _ _ _ other _)
  ]
