-- ===== src/Query/UseCase/Audit.antt =====
-- The history that QueryUseCases::execute writes (crates/app/src/features/query/use_case.rs).
use pairdbase.Common.{ℕ, ◌≡◌, refl, Option, none, some, List, [], ◌∷◌, ◌++◌, Result, ok, err}
use pairdbase.Text.{Text, Unicode}
use pairdbase.Query.Domain.{
  ExecuteRequest, QueryEvent, started, rejected_event, failed, HistoryStatus, success, error,
  rejected_status, QueryHistoryRecord, QueryError, GuardVerdict, approved, rejected, StatementType,
}
use pairdbase.Query.Guard.{SqlParser}
use pairdbase.Query.Session.{QuerySession}
use pairdbase.Query.Executor.{Drivers, RawResult}
use pairdbase.Query.UseCase.Cases.{execute_cases}
use pairdbase.Query.UseCase.{World, Readings, finish, report, judged, execute, success_events}

-- What the events of an answer say of the execution: that it succeeded, failed or was rejected.
-- An answer that the session has expired says nothing of it.
abbrev pub outcome : {V : Type 0} → List (QueryEvent V) → Option HistoryStatus
outcome [] = none
outcome (started e t ∷ events) = some success
outcome (rejected_event e reason ∷ events) = some rejected_status
outcome (failed e m ms ∷ events) = some error
outcome (_ ∷ events) = none

-- The record is of the request, made by the user.
pub record IsOf (req : ExecuteRequest) (user : ℕ) (h : QueryHistoryRecord) : Type 0 where
  pub same_user : h.user_id ≡ user
  pub same_connection : h.connection_id ≡ req.connection_id
  pub same_workspace : h.workspace_id ≡ req.workspace_id
  pub same_query : h.query_text ≡ req.query

abbrev Recorded :
    ExecuteRequest
    → ℕ
    → List QueryHistoryRecord
    → List QueryHistoryRecord
    → Option HistoryStatus
    → Type 0
Recorded req user before after none = after ≡ before
Recorded req user before after (some status) =
    (h : QueryHistoryRecord) × (after ≡ before ++ h ∷ []) × (h.status ≡ status) × IsOf req user h

-- The history after a call, against what the call answered.
abbrev pub Audited :
    {H V : Type 0}
    → ExecuteRequest
    → ℕ
    → World H
    → Result QueryError (List (QueryEvent V)) × World H
    → Type 0
Audited req user w (err e, w') = w'.history ≡ w.history
Audited req user w (ok events, w') = Recorded req user w.history w'.history (outcome events)

module _ {H V : Type 0} where
  finish-Audited :
      (req : ExecuteRequest) (user : ℕ) (w w' : World H) (fault : Option Text)
      (h : QueryHistoryRecord) (events : List (QueryEvent V))
      → w'.history ≡ w.history
      → outcome events ≡ some h.status
      → IsOf req user h
      → Audited req user w (finish w' fault h events)
  unfolding finish
  finish-Audited req user w w' (some e) h events same o i = same
  finish-Audited req user w w' none h events same o i = rw o (
    record h { created_by = h.user_id },
    rw same,
    refl,
    record {
      same_user = i.same_user;
      same_connection = i.same_connection;
      same_workspace = i.same_workspace;
      same_query = i.same_query;
    },
  )

module _ {H V Row Doc E : Type 0} (u : Unicode) (parse_sql : SqlParser E) (sha256_hex : Text → Text)
    (d : Drivers H V Row Doc) where
  report-Audited :
      (w w' : World H) (req : ExecuteRequest) (user org : ℕ) (hash : Text) (i : Readings)
      (t : StatementType) (r : Result QueryError (RawResult V))
      → w'.history ≡ w.history
      → Audited req user w (report w' req user org hash i t r)
  unfolding report
  report-Audited w w' req user org hash i t (ok raw) same =
      finish-Audited req user w w' i.history_fault _ _ same (unfold success_events in refl)
        (record {
          same_user = refl;
          same_connection = refl;
          same_workspace = refl;
          same_query = refl;
        })
  report-Audited w w' req user org hash i t (err e) same =
      finish-Audited req user w w' i.history_fault _ _ same refl (record {
        same_user = refl;
        same_connection = refl;
        same_workspace = refl;
        same_query = refl;
      })

  judged-Audited :
      (w : World H) (req : ExecuteRequest) (user org : ℕ) (i : Readings) (s : QuerySession)
      (v : GuardVerdict)
      → Audited req user w (judged u parse_sql sha256_hex d w req user org i s v)
  unfolding judged
  judged-Audited w req user org i s (rejected reason) =
      finish-Audited req user w w i.history_fault _ _ refl refl (record {
        same_user = refl;
        same_connection = refl;
        same_workspace = refl;
        same_query = refl;
      })
  judged-Audited w req user org i s (approved t) = report-Audited w _ req user org _ i t _ refl

  -- An answer that an execution succeeded, failed or was rejected comes with exactly one new record
  -- in the history, which says the same and is of this request and user; any other answer, an error
  -- or an expired session, leaves the history as it was.
  pub execute-Audited :
      (w : World H) (req : ExecuteRequest) (user org : ℕ) (i : Readings)
      → Audited req user w (execute u parse_sql sha256_hex d w req user org i)
  execute-Audited w req user org i =
      execute_cases u parse_sql sha256_hex d w req user org i (Audited req user w) (λ e. refl)
        (λ s h e. refl) (λ s p reason h k v. judged-Audited w req user org i s (rejected reason))
        (λ s p t h k v. judged-Audited w req user org i s (approved t))
