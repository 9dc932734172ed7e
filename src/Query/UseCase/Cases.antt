-- ===== src/Query/UseCase/Cases.antt =====
-- The ways in which an execution can end, as one rule: what holds of the answer in each holds of
-- the answer.
use pairdbase.Common.{
  ℕ, ◌≡◌, refl, true, some, List, [], ◌∷◌, Result, ok, err, Option-cases, ◌⊎◌, Bool-cases, inl, inr,
  Result-cases,
}
use pairdbase.Text.{Text, codes, Unicode}
use pairdbase.Query.Domain.{
  ExecuteRequest, QueryEvent, session_expired_event, QueryError, no_session, GuardVerdict, approved,
  rejected, ConnectionPermission, StatementType, RejectionReason,
}
use pairdbase.Query.Guard.{SqlParser, evaluate}
use pairdbase.Query.Session.{QuerySession, get_for_connection, is_expired}
use pairdbase.Query.Executor.{Drivers}
use pairdbase.Query.Repository.{get_permission}
use pairdbase.Query.UseCase.{World, Readings, judged, execute_in, execute}

abbrev pub expired_answer : {V : Type 0} → ExecuteRequest → List (QueryEvent V)
expired_answer req =
    session_expired_event req.connection_id (codes "Session expired. Please reconnect to continue.")
    ∷ []

module _ {H V Row Doc E : Type 0} (u : Unicode) (parse_sql : SqlParser E) (sha256_hex : Text → Text)
    (d : Drivers H V Row Doc) (w : World H) (req : ExecuteRequest) (user org : ℕ)
    (i : Readings) where
  -- The user has the session for the connection when it is looked up.
  abbrev pub HasSession : QuerySession → Type 0
  HasSession s = get_for_connection w.sessions user req.connection_id i.looked_up_at ≡ some s

  -- The permission table gives the user the permission on the connection.
  abbrev pub HasPermission : ConnectionPermission → Type 0
  HasPermission p = get_permission i.permission_fault w.permissions req.connection_id user ≡ ok p

  abbrev pub verdict : QuerySession → ConnectionPermission → GuardVerdict
  verdict s p = evaluate u parse_sql req.query s.db_type p

  abbrev pub Answer : Type 0
  Answer = Result QueryError (List (QueryEvent V)) × World H

  pub Verdict-cases :
      (v : GuardVerdict)
      → ((reason : RejectionReason) × (v ≡ rejected reason))
        ⊎ ((t : StatementType) × (v ≡ approved t))
  Verdict-cases (rejected reason) = inl (reason, refl)
  Verdict-cases (approved t) = inr (t, refl)

  execute_in_cases :
      (P : Answer → Type 0) (s : QuerySession)
      → (is_expired s i.checked_at ≡ true → P (ok (expired_answer req), w))
      → ((e : QueryError) → P (err e, w))
      → ((p : ConnectionPermission) (reason : RejectionReason)
          → HasPermission p
          → verdict s p ≡ rejected reason
          → P (judged u parse_sql sha256_hex d w req user org i s (rejected reason)))
      → ((p : ConnectionPermission) (t : StatementType)
          → HasPermission p
          → verdict s p ≡ approved t
          → P (judged u parse_sql sha256_hex d w req user org i s (approved t)))
      → P (execute_in u parse_sql sha256_hex d w req user org i s)
  unfolding execute_in
  execute_in_cases P s late fails no_way go = elim (Bool-cases (is_expired s i.checked_at)) [
    | inl e ↦ rw (e, execute_in) (late e)
    | inr e ↦
        elim (Result-cases
          (get_permission i.permission_fault w.permissions req.connection_id user)) [
            | inr (x, k) ↦ rw (e, k, execute_in) (fails x)
            | inl (p, k) ↦ elim (Verdict-cases (verdict s p)) [
              | inl (reason, v) ↦ rw (e, k, v, execute_in) (no_way p reason k v)
              | inr (t, v) ↦ rw (e, k, v, execute_in) (go p t k v)
            ]
          ]
  ]

  pub execute_cases :
      (P : Answer → Type 0)
      → ((e : QueryError) → P (err e, w))
      → ((s : QuerySession)
          → HasSession s
          → is_expired s i.checked_at ≡ true
          → P (ok (expired_answer req), w))
      → ((s : QuerySession) (p : ConnectionPermission) (reason : RejectionReason)
          → HasSession s
          → HasPermission p
          → verdict s p ≡ rejected reason
          → P (judged u parse_sql sha256_hex d w req user org i s (rejected reason)))
      → ((s : QuerySession) (p : ConnectionPermission) (t : StatementType)
          → HasSession s
          → HasPermission p
          → verdict s p ≡ approved t
          → P (judged u parse_sql sha256_hex d w req user org i s (approved t)))
      → P (execute u parse_sql sha256_hex d w req user org i)
  unfolding execute
  execute_cases P fails late no_way go =
      elim (Option-cases (get_for_connection w.sessions user req.connection_id i.looked_up_at)) [
        | inl e ↦ rw (e, execute) (fails no_session)
        | inr (s, e) ↦
            rw (e, execute)
              (execute_in_cases P s (late s e) fails (λ p reason. no_way s p reason e)
                (λ p t. go s p t e))
      ]
