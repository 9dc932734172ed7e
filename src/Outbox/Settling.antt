-- ===== src/Outbox/Settling.antt =====
-- What becomes of the events that the worker of crates/app/src/services/outbox/worker.rs claims.
use pairdbase.Common.{
  ℕ, ◌≡◌, Bool, true, false, none, some, List, [], ◌∷◌, arith, ◌∙◌, sym, ◌==◌, keep, mem, map,
  Option-cases, Bool-cases, inl, inr,
}
use mathlib.Core.Path.{subst}
use pairdbase.Common.Maps.{Map, lookup}
use pairdbase.Outbox.{
  EventStatus, processing, OutboxRow, Calls, select_due, claim, update, mark_done, mark_failed,
  reschedule, settle, process_rows, process_batch,
}
use pairdbase.Outbox.Claims.{lookup-claim}
use pairdbase.Outbox.Attempts.{some-injective, lookup-update}

abbrev pub is_processing : EventStatus → Bool
is_processing processing = true
is_processing _ = false

-- No event is being processed.
abbrev pub AtRest : {P : Type 0} → Map (OutboxRow P) → Type 0
AtRest {P} t = (k : ℕ) (r : OutboxRow P) → lookup k t ≡ some r → is_processing r.status ≡ false

module _ {P Event : Type 0} (c : Calls P Event) where
  -- What is being processed is among the rows that are still to be settled.
  abbrev Listed : List (ℕ × OutboxRow P) → Map (OutboxRow P) → Type 0
  Listed rows t =
      (k : ℕ) (r : OutboxRow P)
      → lookup k t ≡ some r
      → is_processing r.status ≡ true
      → mem k (map (λ e. e.0) rows) ≡ true

  settle-status : (id : ℕ) (row r : OutboxRow P) → is_processing (settle c id row r).status ≡ false
  unfolding settle mark_done mark_failed reschedule
  settle-status id row r = ground arith

  update-Listed :
      (id : ℕ) (row : OutboxRow P) (rows : List (ℕ × OutboxRow P)) (t : Map (OutboxRow P))
      → Listed ((id, row) ∷ rows) t
      → Listed rows (update id (settle c id row) t)
  update-Listed id row rows t h k r l p =
      let q = sym (lookup-update c id k row t) ∙ l in
      elim (Bool-cases (id == k)) [
        | inl e ↦ elim (Option-cases (lookup id t)) [
          | inl f ↦ (let q' = rw (e, f) at q in cc)
          | inr (r', f) ↦
              (let s =
                  subst (λ x. is_processing x.status ≡ false)
                    (some-injective (settle c id row r') r (rw (e, f) at q))
                    (settle-status id row r') in
                ground arith)
        ]
        | inr e ↦ (let m = h k r (rw e at q) p in ground arith)
      ]

  process_rows-AtRest :
      (rows : List (ℕ × OutboxRow P)) (t : Map (OutboxRow P))
      → ((id : ℕ) → c.settle_fault id ≡ none)
      → Listed rows t
      → AtRest (process_rows c rows t).1
  unfolding process_rows
  process_rows-AtRest [] t n h k r l = elim (Bool-cases (is_processing r.status)) [
    | inl e ↦ (let m = h k r l e in cc)
    | inr e ↦ e
  ]
  process_rows-AtRest ((id, row) ∷ rows) t n h k r l =
      process_rows-AtRest rows (update id (settle c id row) t) n (update-Listed id row rows t h) k r
        (rw (n id, process_rows) at l)

  mem-keep :
      (ids : List ℕ) (k : ℕ) (r : OutboxRow P) (t : Map (OutboxRow P))
      → lookup k t ≡ some r
      → mem k ids ≡ true
      → mem k (map (λ e. e.0) (keep (λ e. mem e.0 ids) t)) ≡ true
  unfolding lookup
  mem-keep ids k r [] l m = cc
  mem-keep ids k r ((j, x) ∷ t) l m = ground (arith, mem-keep ids k r t)

  claim-Listed :
      (ids : List ℕ) (t : Map (OutboxRow P))
      → AtRest t
      → Listed (keep (λ e. mem e.0 ids) (claim ids t)) (claim ids t)
  claim-Listed ids t h k r l p =
      let q = sym (lookup-claim ids k t) ∙ l in
      elim (Bool-cases (mem k ids)) [
        | inl m ↦ mem-keep ids k r (claim ids t) l m
        | inr m ↦ elim (Option-cases (lookup k t)) [
          | inl e ↦ (let q' = rw (m, e) at q in cc)
          | inr (r', e) ↦
              (let s =
                  subst (λ x. is_processing x.status ≡ false) (some-injective r' r (rw (m, e) at q))
                    (h k r' e) in
                ground arith)
        ]
      ]

  -- A batch in which the database meets no fault settles every event that it claims: if no event
  -- was being processed before, then none is afterwards.
  pub process_batch-AtRest :
      (t : Map (OutboxRow P))
      → c.claim_fault ≡ none
      → ((id : ℕ) → c.settle_fault id ≡ none)
      → AtRest t
      → AtRest (process_batch c t).1
  unfolding process_batch
  process_batch-AtRest t f n h =
      let ids = map (λ e. e.0) (select_due c.locked c.claimed_at t) in
      rw (f, process_batch)
        (process_rows-AtRest (keep (λ e. mem e.0 ids) (claim ids t)) (claim ids t) n
          (claim-Listed ids t h))
