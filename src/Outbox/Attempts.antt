-- ===== src/Outbox/Attempts.antt =====
-- How often the worker of crates/app/src/services/outbox/worker.rs tries an event.
use mathlib.Core.Path.{subst}
use pairdbase.Common.{
  ap, ℕ, ◌<◌, ◌≤◌, ◌≡◌, Bool, true, Option, none, some, List, [], ◌∷◌, arith, sym, ◌∙◌, ◌==◌,
  if◌then◌else◌, keep, mem, map, Every, Option-cases, Bool-cases, inl, inr,
}
use pairdbase.Common.Maps.{Map, lookup, lookup-insert}
use pairdbase.Outbox.{
  EventStatus, pending, OutboxRow, Calls, is_due, publish, select_due, claim, claimed_row, update,
  mark_done, mark_failed, reschedule, settle, process_rows, process_batch,
}
use pairdbase.Outbox.Claims.{
  NoDup, Found, Every-map, Every-keep, Every-Found, selected-is_due, lookup-claim, claim-NoDup,
  insert-NoDup,
}

-- A pending event has attempts left; any other was tried once to five times.
abbrev pub Counted : EventStatus → ℕ → Type 0
Counted pending n = n < 5
Counted _ n = (1 ≤ n) × (n ≤ 5)

module _ {P : Type 0} where
  pub record IsValid (t : Map (OutboxRow P)) : Type 0 where
    pub unique : NoDup t
    pub counted : (k : ℕ) (r : OutboxRow P) → lookup k t ≡ some r → Counted r.status r.attempts

  pub some-injective : (a b : OutboxRow P) → some a ≡ some b → a ≡ b
  some-injective a b e = cc

  same_row : (a b : OutboxRow P) → a ≡ b → Counted a.status a.attempts → Counted b.status b.attempts
  same_row a b e h = subst (λ r. Counted r.status r.attempts) e h

  pub due_attempts : (now : ℕ) (r : OutboxRow P) → is_due now r ≡ true → r.attempts < 5
  unfolding is_due
  due_attempts now r h = ground arith

  -- An event is published with its attempts left.
  pub publish-IsValid :
      (id : ℕ) (payload : P) (now : ℕ) (t : Map (OutboxRow P))
      → IsValid t
      → IsValid (publish id payload now t)
  unfolding publish
  publish-IsValid id payload now t v = record {
    unique = insert-NoDup id _ t v.unique;
    counted = λ k r h.
        let q = sym (lookup-insert id k _ t) ∙ h in
        elim (Bool-cases (id == k)) [
          | inl e ↦ same_row _ r (some-injective _ _ (rw e at q)) (omega arith)
          | inr e ↦ v.counted k r (rw e at q)
        ];
  }

  claim-Counted :
      (locked : ℕ → Bool) (now k : ℕ) (r : OutboxRow P) (t : Map (OutboxRow P))
      → IsValid t
      → lookup k (claim (map (λ e. e.0) (select_due locked now t)) t) ≡ some r
      → Counted r.status r.attempts
  unfolding is_due
  claim-Counted locked now k r t v h =
      let ids = map (λ e. e.0) (select_due locked now t) in
      let q = sym (lookup-claim ids k t) ∙ h in
      elim (Option-cases (lookup k t)) [
        | inl e ↦ (let q' = rw e at q in cc)
        | inr (r', e) ↦ elim (Bool-cases (mem k ids)) [
          | inl m ↦
              same_row (claimed_row r') r (some-injective _ _ (rw (m, e) at q)) (
                omega (arith, due_attempts now r' (selected-is_due locked now k r' t v.unique m e)))
          | inr m ↦ same_row r' r (some-injective _ _ (rw (m, e) at q)) (v.counted k r' e)
        ]
      ]

  claim-tried :
      (locked : ℕ → Bool) (now k : ℕ) (r : OutboxRow P) (t : Map (OutboxRow P))
      → NoDup t
      → mem k (map (λ e. e.0) (select_due locked now t)) ≡ true
      → lookup k (claim (map (λ e. e.0) (select_due locked now t)) t) ≡ some r
      → (1 ≤ r.attempts) × (r.attempts ≤ 5)
  claim-tried locked now k r t u m h =
      let q = sym (lookup-claim (map (λ e. e.0) (select_due locked now t)) k t) ∙ h in
      elim (Option-cases (lookup k t)) [
        | inl e ↦ (let q' = rw e at q in cc)
        | inr (r', e) ↦
            subst (λ x. (1 ≤ x.attempts) × (x.attempts ≤ 5))
              (some-injective (claimed_row r') r (rw (m, e) at q))
              (omega (arith, due_attempts now r' (selected-is_due locked now k r' t u m e)))
      ]

module _ {P Event : Type 0} (c : Calls P Event) where
  -- The event was tried so often, once to five times.
  abbrev Tried : Map (OutboxRow P) → ℕ → ℕ → Type 0
  Tried t k n =
      (r : OutboxRow P)
      → lookup k t ≡ some r
      → (r.attempts ≡ n) × (1 ≤ r.attempts) × (r.attempts ≤ 5)

  -- The claimed rows have the attempts that the table has.
  abbrev Agree : Map (OutboxRow P) → List (ℕ × OutboxRow P) → Type 0
  Agree t rows = Every (λ e. Tried t e.0 e.1.attempts) rows

  pub settle-attempts : (id : ℕ) (row r : OutboxRow P) → (settle c id row r).attempts ≡ r.attempts
  unfolding settle mark_done mark_failed reschedule
  settle-attempts id row r = ground arith

  settle-Counted :
      (id : ℕ) (row r : OutboxRow P)
      → r.attempts ≡ row.attempts
      → 1 ≤ r.attempts
      → r.attempts ≤ 5
      → Counted (settle c id row r).status (settle c id row r).attempts
  unfolding settle mark_done mark_failed reschedule
  settle-Counted id row r e l m = ground arith

  abbrev pub settled : ℕ → OutboxRow P → Option (OutboxRow P) → Option (OutboxRow P)
  settled id row none = none
  settled id row (some r) = some (settle c id row r)

  pub lookup-update :
      (id j : ℕ) (row : OutboxRow P) (t : Map (OutboxRow P))
      → lookup j (update id (settle c id row) t)
        ≡ (if id == j then settled id row (lookup id t) else lookup j t)
  unfolding update
  lookup-update id j row t = elim (Option-cases (lookup id t)) [
    | inl e ↦
        rw (e, update)
          (elim (Bool-cases (id == j)) [
            | inl b ↦ rw b (subst (λ i. lookup i t ≡ none) (ground arith) e)
            | inr b ↦ rw b
          ])
    | inr (r, e) ↦ rw (e, update) (lookup-insert id j (settle c id row r) t)
  ]

  update-NoDup :
      (id : ℕ) (row : OutboxRow P) (t : Map (OutboxRow P))
      → NoDup t
      → NoDup (update id (settle c id row) t)
  unfolding update
  update-NoDup id row t h = elim (Option-cases (lookup id t)) [
    | inl e ↦ rw (e, update) h
    | inr (r, e) ↦ rw (e, update) (insert-NoDup id (settle c id row r) t h)
  ]

  Tried-update :
      (id k n : ℕ) (row : OutboxRow P) (t : Map (OutboxRow P))
      → Tried t k n
      → Tried (update id (settle c id row) t) k n
  Tried-update id k n row t h r l =
      let q = sym (lookup-update id k row t) ∙ l in
      elim (Bool-cases (id == k)) [
        | inl e ↦ elim (Option-cases (lookup id t)) [
          | inl f ↦ (let q' = rw (e, f) at q in cc)
          | inr (r', f) ↦
              subst (λ x. (x.attempts ≡ n) × (1 ≤ x.attempts) × (x.attempts ≤ 5))
                (some-injective (settle c id row r') r (rw (e, f) at q))
                (ground (
                  arith,
                  settle-attempts id row r',
                  h r' (subst (λ i. lookup i t ≡ some r') (ground arith) f),
                ))
        ]
        | inr e ↦ h r (rw e at q)
      ]

  update-IsValid :
      (id : ℕ) (row : OutboxRow P) (t : Map (OutboxRow P))
      → Tried t id row.attempts
      → IsValid t
      → IsValid (update id (settle c id row) t)
  update-IsValid id row t a v = record {
    unique = update-NoDup id row t v.unique;
    counted = λ k r h.
        let q = sym (lookup-update id k row t) ∙ h in
        elim (Bool-cases (id == k)) [
          | inl e ↦ elim (Option-cases (lookup id t)) [
            | inl f ↦ (let q' = rw (e, f) at q in cc)
            | inr (r', f) ↦
                (let (x, y, z) = a r' f in
                  same_row (settle c id row r') r (some-injective _ _ (rw (e, f) at q))
                    (settle-Counted id row r' x y z))
          ]
          | inr e ↦ v.counted k r (rw e at q)
        ];
  }

  process_rows-IsValid :
      (rows : List (ℕ × OutboxRow P)) (t : Map (OutboxRow P))
      → Agree t rows
      → IsValid t
      → IsValid (process_rows c rows t).1
  unfolding process_rows
  process_rows-IsValid [] t a v = v
  process_rows-IsValid ((id, row) ∷ rows) t a v = elim (Option-cases (c.settle_fault id)) [
    | inr (e, f) ↦ rw (f, process_rows) v
    | inl f ↦
        rw (f, process_rows)
          (process_rows-IsValid rows (update id (settle c id row) t)
            (Every-map rows (λ e. Tried-update id e.0 e.1.attempts row t) a.1)
            (update-IsValid id row t a.0 v))
  ]

  pub process_batch-IsValid : (t : Map (OutboxRow P)) → IsValid t → IsValid (process_batch c t).1
  unfolding process_batch
  process_batch-IsValid t v = elim (Option-cases c.claim_fault) [
    | inr (e, f) ↦ rw (f, process_batch) v
    | inl f ↦
        (let ids = map (λ e. e.0) (select_due c.locked c.claimed_at t) in
          let u = claim-NoDup ids t v.unique in
          rw (f, process_batch)
            (process_rows-IsValid (keep (λ e. mem e.0 ids) (claim ids t)) (claim ids t)
              (Every-map _
                (λ e g r l.
                  let (x, y) = claim-tried c.locked c.claimed_at e.0 r t v.unique g.1 l in
                  (ap (λ x. x.attempts) (some-injective r e.1 (sym l ∙ g.0)), x, y))
                (Every-keep (Found (claim ids t)) (λ e. mem e.0 ids) (claim ids t)
                  (Every-Found (claim ids t) u)))
              (record {
                unique = u;
                counted = λ k r. claim-Counted c.locked c.claimed_at k r t v;
              })))
  ]

module _ (P Event : Type 0) where
  -- The outbox after events were published and workers ran, in any order.
  pub data Runs : Map (OutboxRow P) → Type 0 where
    empty : Runs []
    published :
        {t : Map (OutboxRow P)} (id : ℕ) (payload : P) (now : ℕ)
        → lookup id t ≡ none
        → Runs t
        → Runs (publish id payload now t)
    worked : {t : Map (OutboxRow P)} (c : Calls P Event) → Runs t → Runs (process_batch c t).1

  -- However events are published and workers run, and whatever fails: no count of attempts exceeds
  -- five, and an event that waits to be tried has attempts left.
  pub Runs-IsValid : {t : Map (OutboxRow P)} → Runs t → IsValid t
  unfolding lookup
  Runs-IsValid empty = record { unique = tt; counted = λ k r e. cc }
  Runs-IsValid (published {t} id payload now f h) =
      publish-IsValid id payload now t (Runs-IsValid h)
  Runs-IsValid (worked {t} c h) = process_batch-IsValid c t (Runs-IsValid h)
