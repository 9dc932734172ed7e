-- ===== src/Outbox.antt =====
-- The outbox worker: crates/app/src/services/outbox/worker.rs. TBL_OUTBOX_EVENTS is a map from ids
-- to rows. What the worker meets on the way is its `Calls`: the rows that other workers hold
-- locked, how a payload is read and an event is sent, the clock, and the faults of the database.
pub mod Claims
pub mod Attempts
pub mod Settling
pub mod Tries
pub mod Events
pub mod Mails
mod Examples
use pairdbase.Common.{
  ℕ, suc, ◌+◌, ◌*◌, ◌^◌, Bool, true, false, not, ◌&&◌, Option, none, some, List, [], ◌∷◌, Result,
  ok, err, ltb, leb, if◌then◌else◌, keep, take, mem, map,
}
use pairdbase.Common.Maps.{Map, lookup, insert}
use pairdbase.Text.{Text}

abbrev pub max_attempts : ℕ
max_attempts = 5

abbrev pub batch_limit : ℕ
batch_limit = 50

-- Times count seconds.
abbrev pub minute : ℕ
minute = 60

pub data EventStatus : Type 0 where
  pending processing done gave_up : EventStatus

pub record OutboxRow (P : Type 0) : Type 0 where
  pub payload : P
  pub status : EventStatus
  pub attempts : ℕ
  pub scheduled_at : ℕ
  pub last_error : Option Text
  pub processed_at : Option ℕ

pub record Calls (P Event : Type 0) : Type 0 where
  pub locked : ℕ → Bool
  pub from_value : P → Result Text Event
  pub dispatch : ℕ → Event → Result Text (Unit {0})
  pub claimed_at : ℕ
  pub settled_at : ℕ → ℕ
  pub claim_fault : Option Text
  pub settle_fault : ℕ → Option Text

abbrev is_pending : EventStatus → Bool
is_pending pending = true
is_pending _ = false

module _ {P : Type 0} where
  -- An INSERT with the defaults of the table.
  unfoldable pub publish : ℕ → P → ℕ → Map (OutboxRow P) → Map (OutboxRow P)
  publish id payload now t =
      insert id
        (record {
          payload = payload;
          status = pending;
          attempts = 0;
          scheduled_at = now;
          last_error = none;
          processed_at = none;
        })
        t

  -- The WHERE clause of the inner SELECT.
  unfoldable pub is_due : ℕ → OutboxRow P → Bool
  is_due now r = is_pending r.status && ltb r.attempts max_attempts && leb r.scheduled_at now

  -- ORDER BY scheduled_at.
  unfoldable pub place : ℕ × OutboxRow P → List (ℕ × OutboxRow P) → List (ℕ × OutboxRow P)
  place e [] = e ∷ []
  place e (f ∷ rest) =
      let later = place e rest in
      if leb e.1.scheduled_at f.1.scheduled_at then e ∷ f ∷ rest else f ∷ later

  unfoldable pub by_time : List (ℕ × OutboxRow P) → List (ℕ × OutboxRow P)
  unfolding place
  by_time [] = []
  by_time (e ∷ rest) = place e (by_time rest)

  -- The inner SELECT: `FOR UPDATE SKIP LOCKED` passes over the locked rows.
  unfoldable pub select_due : (ℕ → Bool) → ℕ → Map (OutboxRow P) → List (ℕ × OutboxRow P)
  unfolding is_due by_time
  select_due locked now t =
      take batch_limit (by_time (keep (λ e. is_due now e.1 && not (locked e.0)) t))

  abbrev pub claimed_row : OutboxRow P → OutboxRow P
  claimed_row r = record r { status = processing; attempts = r.attempts + 1 }

  -- The UPDATE of the rows that were selected.
  unfoldable pub claim : List ℕ → Map (OutboxRow P) → Map (OutboxRow P)
  claim ids [] = []
  claim ids ((k, r) ∷ t) =
      let rest = claim ids t in (k, if mem k ids then claimed_row r else r) ∷ rest

  unfoldable pub update : ℕ → (OutboxRow P → OutboxRow P) → Map (OutboxRow P) → Map (OutboxRow P)
  update id f t = elim (lookup id t) [ none ↦ t | some r ↦ insert id (f r) t ]

  unfoldable pub mark_done : ℕ → OutboxRow P → OutboxRow P
  mark_done now r = record r { status = done; processed_at = some now }

  unfoldable pub mark_failed : Text → OutboxRow P → OutboxRow P
  mark_failed e r = record r { status = gave_up; last_error = some e }

  unfoldable pub reschedule : ℕ → ℕ → Text → OutboxRow P → OutboxRow P
  reschedule now delay_mins e r = record r {
    status = pending;
    last_error = some e;
    scheduled_at = now + delay_mins * minute;
  }

module _ {P Event : Type 0} (c : Calls P Event) where
  -- What becomes of a claimed row.
  unfoldable pub settle : ℕ → OutboxRow P → OutboxRow P → OutboxRow P
  unfolding mark_done mark_failed reschedule
  settle id row = elim (c.from_value row.payload) [
    | err e ↦ mark_failed e
    | ok event ↦ elim (c.dispatch id event) [
      | ok u ↦ mark_done (c.settled_at id)
      | err e ↦
          if leb max_attempts row.attempts
          then mark_failed e
          else reschedule (c.settled_at id) (2 ^ row.attempts) e
    ]
  ]

  -- The loop over the claimed rows; a fault ends it.
  unfoldable pub process_rows :
      List (ℕ × OutboxRow P) → Map (OutboxRow P) → Result Text (Unit {0}) × Map (OutboxRow P)
  unfolding settle update
  process_rows [] t = (ok tt, t)
  process_rows ((id, row) ∷ rows) t = elim (c.settle_fault id) [
    | some e ↦ (err e, t)
    | none ↦ process_rows rows (update id (settle id row) t)
  ]

  unfoldable pub process_batch : Map (OutboxRow P) → Result Text (Unit {0}) × Map (OutboxRow P)
  unfolding select_due claim process_rows
  process_batch t = elim c.claim_fault [
    | some e ↦ (err e, t)
    | none ↦
        (let ids = map (λ e. e.0) (select_due c.locked c.claimed_at t) in
          let t' = claim ids t in process_rows (keep (λ e. mem e.0 ids) t') t')
  ]
