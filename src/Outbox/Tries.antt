-- ===== src/Outbox/Tries.antt =====
-- How many batches of the worker of crates/app/src/services/outbox/worker.rs try an event.
use pairdbase.Common.{
  ℕ, ◌+◌, ◌≤◌, ◌<◌, ◌≡◌, refl, Bool, true, false, Option, none, some, List, [], ◌∷◌, arith, ◌∙◌, ap,
  ◌==◌, if◌then◌else◌, keep, mem, map, Option-cases, Bool-cases, inl, inr,
}
use pairdbase.Common.Maps.{Map, lookup}
use pairdbase.Outbox.{
  EventStatus, pending, processing, done, gave_up, OutboxRow, Calls, select_due, claim, update,
  settle, process_rows, process_batch, max_attempts,
}
use pairdbase.Outbox.Claims.{selected-is_due, lookup-claim, claimed_opt}
use pairdbase.Outbox.Attempts.{
  Counted, IsValid, lookup-update, settled, process_batch-IsValid, due_attempts, settle-attempts,
}

abbrev attempts_of : {P : Type 0} → Option (OutboxRow P) → Option ℕ
attempts_of none = none
attempts_of (some r) = some r.attempts

claimed-attempts :
    {P : Type 0} (b : Bool) (o : Option (OutboxRow P)) (r : OutboxRow P)
    → o ≡ some r
    → attempts_of (claimed_opt b o) ≡ some (if b then r.attempts + 1 else r.attempts)
claimed-attempts b none r h = cc
claimed-attempts true (some r') r h = ground arith
claimed-attempts false (some r') r h = ground arith

Counted-le : (s : EventStatus) (n : ℕ) → Counted s n → n ≤ 5
Counted-le pending n h = omega arith
Counted-le processing n h = h.1
Counted-le done n h = h.1
Counted-le gave_up n h = h.1

module _ {P Event : Type 0} where
  abbrev ids_of : Calls P Event → Map (OutboxRow P) → List ℕ
  ids_of c t = map (λ e. e.0) (select_due c.locked c.claimed_at t)

  -- The batch claims the event.
  pub tries : Calls P Event → ℕ → Map (OutboxRow P) → Bool
  tries c k t = elim c.claim_fault [ some e ↦ false | none ↦ mem k (ids_of c t) ]

  module _ (c : Calls P Event) where
    settled-attempts :
        (id : ℕ) (row : OutboxRow P) (o : Option (OutboxRow P))
        → attempts_of (settled c id row o) ≡ attempts_of o
    settled-attempts id row none = refl
    settled-attempts id row (some r) = ap (λ n. some n) (settle-attempts c id row r)

    update-attempts :
        (id k : ℕ) (row : OutboxRow P) (t : Map (OutboxRow P))
        → attempts_of (lookup k (update id (settle c id row) t)) ≡ attempts_of (lookup k t)
    update-attempts id k row t = elim (Bool-cases (id == k)) [
      | inr e ↦ ap attempts_of (ground (arith, lookup-update c id k row t))
      | inl e ↦
          (let same : id ≡ k = ground arith in
            ap attempts_of (ground (arith, lookup-update c id k row t))
            ∙ settled-attempts id row (lookup id t)
            ∙ ap (λ i. attempts_of (lookup i t)) same)
    ]

    process_rows-attempts :
        (k : ℕ) (rows : List (ℕ × OutboxRow P)) (t : Map (OutboxRow P))
        → attempts_of (lookup k (process_rows c rows t).1) ≡ attempts_of (lookup k t)
    unfolding process_rows
    process_rows-attempts k [] t = refl
    process_rows-attempts k ((id, row) ∷ rows) t = elim (Option-cases (c.settle_fault id)) [
      | inr (e, f) ↦ rw (f, process_rows) refl
      | inl f ↦
          rw (f, process_rows)
            (process_rows-attempts k rows (update id (settle c id row) t)
              ∙ update-attempts id k row t)
    ]

    -- A batch adds one to the attempts of each event that it claims, and leaves those of the others.
    process_batch-attempts :
        (k : ℕ) (r : OutboxRow P) (t : Map (OutboxRow P))
        → lookup k t ≡ some r
        → attempts_of (lookup k (process_batch c t).1)
          ≡ some (if tries c k t then r.attempts + 1 else r.attempts)
    unfolding process_batch tries
    process_batch-attempts k r t h = elim (Option-cases c.claim_fault) [
      | inr (e, f) ↦ rw (f, process_batch, tries) (ap attempts_of h)
      | inl f ↦
          (let ids = ids_of c t in
            rw (f, process_batch, tries)
              (process_rows-attempts k (keep (λ e. mem e.0 ids) (claim ids t)) (claim ids t)
                ∙ ap attempts_of (lookup-claim ids k t)
                ∙ claimed-attempts (mem k ids) (lookup k t) r h))
    ]

    tries-lt :
        (k : ℕ) (r : OutboxRow P) (t : Map (OutboxRow P))
        → IsValid t
        → lookup k t ≡ some r
        → tries c k t ≡ true
        → r.attempts < 5
    unfolding tries
    tries-lt k r t v h m = elim (Option-cases c.claim_fault) [
      | inr (e, f) ↦ absurd (ground arith)
      | inl f ↦
          due_attempts c.claimed_at r
            (selected-is_due c.locked c.claimed_at k r t v.unique (ground arith) h)
    ]

  -- In how many of the batches, which run one after another, the event is claimed.
  pub count_tries : ℕ → List (Calls P Event) → Map (OutboxRow P) → ℕ
  count_tries k [] t = 0
  count_tries k (c ∷ cs) t =
      let rest = count_tries k cs (process_batch c t).1 in if tries c k t then rest + 1 else rest

  -- From a valid table, however many batches run one after another, and whatever fails in them: the
  -- batches that claim an event and the attempts that it had before are together at most five.
  pub count_tries-le :
      (k : ℕ) (cs : List (Calls P Event)) (t : Map (OutboxRow P)) (r : OutboxRow P)
      → IsValid t
      → lookup k t ≡ some r
      → r.attempts + count_tries k cs t ≤ max_attempts
  unfolding count_tries
  count_tries-le k [] t r v h = omega (arith, Counted-le r.status r.attempts (v.counted k r h))
  count_tries-le k (c ∷ cs) t r v h = elim (Option-cases (lookup k (process_batch c t).1)) [
    | inl e ↦ (let q = process_batch-attempts c k r t h in absurd (ground arith))
    | inr (r', e) ↦
        (let q = process_batch-attempts c k r t h in
          let ih = count_tries-le k cs (process_batch c t).1 r' (process_batch-IsValid c t v) e in
          ground arith)
  ]
