-- ===== src/Query/UseCase/Access.antt =====
-- What reaches the database, how much comes back, and what becomes of the sessions.
use pairdbase.Common.{
  ℕ, ◌≤◌, ◌≡◌, ◌≢◌, refl, Option, none, some, List, Result, ok, err, arith, Option-cases,
  Bool-cases, Result-cases, inl, inr, length,
}
use pairdbase.Text.{Text, Unicode}
use pairdbase.Query.Domain.{
  ExecuteRequest, QueryEvent, QueryError, QueryHistoryRecord, ConnectionPermission, StatementType,
  RejectionReason, GuardVerdict, approved, rejected,
}
use pairdbase.Query.Guard.{SqlParser}
use pairdbase.Query.Repository.{get_permission}
use pairdbase.Query.Session.{QuerySession, get_for_connection, is_expired}
use pairdbase.Query.Session.Invariant.{IsValid, touch-IsValid}
use pairdbase.Query.Executor.{Drivers, RawResult, run}
use pairdbase.Query.Executor.Limits.{run-IsLimited}
use pairdbase.Query.UseCase.{
  World, Readings, finish, report, judged, execute_in, execute, max_rows_of, timeout_of,
}
use pairdbase.Query.UseCase.Batches.{delivered, success_events-deliver}
use pairdbase.Query.UseCase.Cases.{
  expired_answer, HasSession, HasPermission, verdict, execute_cases,
}

module _ {H V : Type 0} where
  finish-sent :
      (w : World H) (fault : Option Text) (h : QueryHistoryRecord) (events : List (QueryEvent V))
      → (finish w fault h events).1.sent ≡ w.sent
  unfolding finish
  finish-sent w none h events = refl
  finish-sent w (some x) h events = refl

module _ {H V Row Doc E : Type 0} (u : Unicode) (parse_sql : SqlParser E) (sha256_hex : Text → Text)
    (d d' : Drivers H V Row Doc) (w : World H) (req : ExecuteRequest) (user org : ℕ)
    (i : Readings) where
  -- No session of the user and no permission get the query past the guard.
  abbrev NeverApproved : Type 0
  NeverApproved =
      (s : QuerySession) (p : ConnectionPermission) (t : StatementType)
      → HasSession u parse_sql sha256_hex d w req user org i s
      → HasPermission u parse_sql sha256_hex d w req user org i p
      → verdict u parse_sql sha256_hex d w req user org i s p ≢ approved t

  judged_guarded :
      (s : QuerySession) (v : GuardVerdict)
      → ((t : StatementType) → v ≢ approved t)
      → judged u parse_sql sha256_hex d w req user org i s v
        ≡ judged u parse_sql sha256_hex d' w req user org i s v
  unfolding judged
  judged_guarded s (rejected reason) h = refl
  judged_guarded s (approved t) h = absurd (h t refl)

  execute_in_guarded :
      (s : QuerySession)
      → ((p : ConnectionPermission) (t : StatementType)
          → HasPermission u parse_sql sha256_hex d w req user org i p
          → verdict u parse_sql sha256_hex d w req user org i s p ≢ approved t)
      → execute_in u parse_sql sha256_hex d w req user org i s
        ≡ execute_in u parse_sql sha256_hex d' w req user org i s
  unfolding execute_in
  execute_in_guarded s h = elim (Bool-cases (is_expired s i.checked_at)) [
    | inl e ↦ rw (e, execute_in)
    | inr e ↦
        elim (Result-cases
          (get_permission i.permission_fault w.permissions req.connection_id user)) [
            | inr (x, k) ↦ rw (e, k, execute_in)
            | inl (p, k) ↦ rw (e, k, execute_in) (judged_guarded s _ (λ t. h p t k))
          ]
  ]

  answers_alike :
      NeverApproved
      → execute u parse_sql sha256_hex d w req user org i
        ≡ execute u parse_sql sha256_hex d' w req user org i
  unfolding execute
  answers_alike h =
      elim (Option-cases (get_for_connection w.sessions user req.connection_id i.looked_up_at)) [
        | inl e ↦ rw (e, execute)
        | inr (s, e) ↦ rw (e, execute) (execute_in_guarded s (λ p t. h s p t e))
      ]

  -- A query that is not approved does not reach the database: without a session, a permission and
  -- the guard's approval, the executor is given nothing, and the answer and the state are the same
  -- whatever the databases would do.
  pub execute_guarded :
      NeverApproved
      → ((execute u parse_sql sha256_hex d w req user org i).1.sent ≡ w.sent)
        × (execute u parse_sql sha256_hex d w req user org i
            ≡ execute u parse_sql sha256_hex d' w req user org i)
  unfolding judged
  execute_guarded h = (
    execute_cases u parse_sql sha256_hex d w req user org i (λ a. a.1.sent ≡ w.sent) (λ e. refl)
        (λ s k e. refl) (λ s p reason k m v. finish-sent {V = V} w i.history_fault _ _)
        (λ s p t k m v. absurd (h s p t k m v)),
    answers_alike h,
  )

module _ {H V : Type 0} where
  finish-events :
      (w : World H) (fault : Option Text) (h : QueryHistoryRecord)
      (events got : List (QueryEvent V))
      → (finish w fault h events).0 ≡ ok got
      → events ≡ got
  unfolding finish
  finish-events w none h events got e = cc
  finish-events w (some x) h events got e = cc

  finish-sessions :
      (w : World H) (fault : Option Text) (h : QueryHistoryRecord) (events : List (QueryEvent V))
      → (finish w fault h events).1.sessions ≡ w.sessions
  unfolding finish
  finish-sessions w none h events = refl
  finish-sessions w (some x) h events = refl

max_rows_of-le : (req : ExecuteRequest) → max_rows_of req ≤ 100000
unfolding max_rows_of
max_rows_of-le req = omega arith

module _ {H V Row Doc E : Type 0} (u : Unicode) (parse_sql : SqlParser E) (sha256_hex : Text → Text)
    (d : Drivers H V Row Doc) (w : World H) (req : ExecuteRequest) (user org : ℕ)
    (i : Readings) where
  report-limited :
      (w' : World H) (hash : Text) (t : StatementType) (r : Result QueryError (RawResult V))
      (events : List (QueryEvent V))
      → ((raw : RawResult V) → r ≡ ok raw → length raw.rows ≤ 100000)
      → (report w' req user org hash i t r).0 ≡ ok events
      → length (delivered events) ≤ 100000
  unfolding report
  report-limited w' hash t (ok raw) events h e =
      rw
        (
          ← finish-events w' i.history_fault _ _ events e,
          (success_events-deliver i.execution_id t raw _).0,
        )
        (h raw refl)
  report-limited w' hash t (err x) events h e =
      rw (← finish-events w' i.history_fault _ _ events e) (omega arith)

  rejected-limited :
      (reason : RejectionReason) (s : QuerySession) (events : List (QueryEvent V))
      → (judged u parse_sql sha256_hex d w req user org i s (rejected reason)).0 ≡ ok events
      → length (delivered events) ≤ 100000
  unfolding judged
  rejected-limited reason s events e =
      rw (← finish-events w i.history_fault _ _ events e) (omega arith)

  bounded :
      (raw : RawResult V)
      → run u d w.pools req.connection_id req.query (max_rows_of req) (timeout_of req) i.in_time
        ≡ ok raw
      → length raw.rows ≤ 100000
  bounded raw r = omega (
    arith,
    max_rows_of-le req,
    run-IsLimited u d w.pools req.connection_id req.query (max_rows_of req) (timeout_of req)
        i.in_time raw r,
  )

  -- Whatever the request asks for, an answer delivers at most 100000 rows.
  pub execute_limited :
      (events : List (QueryEvent V))
      → (execute u parse_sql sha256_hex d w req user org i).0 ≡ ok events
      → length (delivered events) ≤ 100000
  unfolding judged
  execute_limited events =
      execute_cases u parse_sql sha256_hex d w req user org i
        (λ a. a.0 ≡ ok events → length (delivered events) ≤ 100000) (λ e k. cc)
        (λ s h e k. let q : expired_answer req ≡ events = cc in rw (← q) (omega arith))
        (λ s p reason h k v x. rejected-limited reason s events x)
        (λ s p t h k v x.
          report-limited _ _ t
            (run u d w.pools req.connection_id req.query (max_rows_of req) (timeout_of req)
              i.in_time)
            events (λ raw r. bounded raw r) x)

  report-sessions :
      (w' : World H) (hash : Text) (t : StatementType) (r : Result QueryError (RawResult V))
      → (report w' req user org hash i t r).1.sessions ≡ w'.sessions
  unfolding report
  report-sessions w' hash t (ok raw) = finish-sessions w' i.history_fault _ _
  report-sessions w' hash t (err x) = finish-sessions w' i.history_fault _ _

  -- Executing keeps the registry of sessions valid.
  pub execute-IsValid :
      IsValid w.sessions → IsValid (execute u parse_sql sha256_hex d w req user org i).1.sessions
  unfolding judged
  execute-IsValid valid =
      execute_cases u parse_sql sha256_hex d w req user org i (λ a. IsValid a.1.sessions)
        (λ e. valid) (λ s h e. valid)
        (λ s p reason h k v. rw (finish-sessions {V = V} w i.history_fault _ _) valid)
        (λ s p t h k v.
          rw (report-sessions _ _ t _) (touch-IsValid w.sessions s.session_id i.touched_at valid))
