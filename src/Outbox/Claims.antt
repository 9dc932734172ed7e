-- ===== src/Outbox/Claims.antt =====
-- What the worker of crates/app/src/services/outbox/worker.rs claims.
use pairdbase.Common.{
  ℕ, suc, zero, ◌≡◌, refl, Bool, true, not, ◌&&◌, Option, none, some, List, [], ◌∷◌, arith, leb,
  if◌then◌else◌, keep, take, mem, map, Every, Bool-cases, inl, inr,
}
use pairdbase.Common.Maps.{Map, lookup, insert, lookup-insert}
use pairdbase.Outbox.{
  OutboxRow, is_due, place, by_time, select_due, claim, claimed_row, batch_limit,
}

module _ {P : Type 0} where
  -- No id stands for two rows.
  abbrev pub NoDup : Map (OutboxRow P) → Type 0
  NoDup [] = Unit
  NoDup ((k, r) ∷ t) = (lookup k t ≡ none) × NoDup t

  -- The entry is as the table has it.
  abbrev pub Found : Map (OutboxRow P) → ℕ × OutboxRow P → Type 0
  Found t e = lookup e.0 t ≡ some e.1

  pub Every-map :
      {p q : ℕ × OutboxRow P → Type 0} (es : List (ℕ × OutboxRow P))
      → ((e : ℕ × OutboxRow P) → p e → q e)
      → Every p es
      → Every q es
  Every-map [] f h = tt
  Every-map (e ∷ es) f h = (f e h.0, Every-map es f h.1)

  pub Every-keep :
      (p : ℕ × OutboxRow P → Type 0) (b : ℕ × OutboxRow P → Bool) (es : List (ℕ × OutboxRow P))
      → Every p es
      → Every (λ e. p e × (b e ≡ true)) (keep b es)
  Every-keep p b [] h = tt
  Every-keep p b (e ∷ es) h = elim (Bool-cases (b e)) [
    | inl k ↦ rw k ((h.0, k), Every-keep p b es h.1)
    | inr k ↦ rw k (Every-keep p b es h.1)
  ]

  Every-take :
      (p : ℕ × OutboxRow P → Type 0) (n : ℕ) (es : List (ℕ × OutboxRow P))
      → Every p es
      → Every p (take n es)
  Every-take p zero es h = tt
  Every-take p (suc n) [] h = tt
  Every-take p (suc n) (e ∷ es) h = (h.0, Every-take p n es h.1)

  Every-place :
      (p : ℕ × OutboxRow P → Type 0) (e : ℕ × OutboxRow P) (es : List (ℕ × OutboxRow P))
      → p e
      → Every p es
      → Every p (place e es)
  unfolding place
  Every-place p e [] h k = (h, tt)
  Every-place p e (f ∷ es) h k = elim (Bool-cases (leb e.1.scheduled_at f.1.scheduled_at)) [
    | inl b ↦ rw b (h, k)
    | inr b ↦ rw b (k.0, Every-place p e es h k.1)
  ]

  Every-by_time :
      (p : ℕ × OutboxRow P → Type 0) (es : List (ℕ × OutboxRow P))
      → Every p es
      → Every p (by_time es)
  unfolding by_time
  Every-by_time p [] h = tt
  Every-by_time p (e ∷ es) h = Every-place p e (by_time es) h.0 (Every-by_time p es h.1)

  pub Every-Found : (t : Map (OutboxRow P)) → NoDup t → Every (Found t) t
  unfolding lookup
  Every-Found [] h = tt
  Every-Found ((k, r) ∷ t) h = (ground arith, Every-map t (λ e f. ground arith) (Every-Found t h.1))

  select_due-Every :
      (locked : ℕ → Bool) (now : ℕ) (t : Map (OutboxRow P))
      → NoDup t
      → Every (λ e. Found t e × (is_due now e.1 ≡ true)) (select_due locked now t)
  unfolding select_due
  select_due-Every locked now t h = Every-take _ batch_limit _ (
      Every-by_time _ _ (
        Every-map _ (λ e f. (f.0, ground arith))
          (Every-keep (Found t) (λ e. is_due now e.1 && not (locked e.0)) t (Every-Found t h))))

  mem-Every :
      (now k : ℕ) (r : OutboxRow P) (t : Map (OutboxRow P)) (es : List (ℕ × OutboxRow P))
      → Every (λ e. Found t e × (is_due now e.1 ≡ true)) es
      → mem k (map (λ e. e.0) es) ≡ true
      → lookup k t ≡ some r
      → is_due now r ≡ true
  mem-Every now k r t [] h m l = cc
  mem-Every now k r t (e ∷ es) h m l = ground (arith, h.0.0, h.0.1, mem-Every now k r t es h.1)

  -- A row whose id is selected is due.
  pub selected-is_due :
      (locked : ℕ → Bool) (now k : ℕ) (r : OutboxRow P) (t : Map (OutboxRow P))
      → NoDup t
      → mem k (map (λ e. e.0) (select_due locked now t)) ≡ true
      → lookup k t ≡ some r
      → is_due now r ≡ true
  selected-is_due locked now k r t h m l =
      mem-Every now k r t (select_due locked now t) (select_due-Every locked now t h) m l

  abbrev pub claimed_opt : Bool → Option (OutboxRow P) → Option (OutboxRow P)
  claimed_opt b none = none
  claimed_opt b (some r) = some (if b then claimed_row r else r)

  pub lookup-claim :
      (ids : List ℕ) (k : ℕ) (t : Map (OutboxRow P))
      → lookup k (claim ids t) ≡ claimed_opt (mem k ids) (lookup k t)
  unfolding claim lookup
  lookup-claim ids k [] = refl
  lookup-claim ids k ((j, r) ∷ t) = ground (arith, lookup-claim ids k t)

  pub claim-NoDup : (ids : List ℕ) (t : Map (OutboxRow P)) → NoDup t → NoDup (claim ids t)
  unfolding claim
  claim-NoDup ids [] h = tt
  claim-NoDup ids ((j, r) ∷ t) h = (ground (arith, lookup-claim ids j t), claim-NoDup ids t h.1)

  pub insert-NoDup :
      (k : ℕ) (r : OutboxRow P) (t : Map (OutboxRow P)) → NoDup t → NoDup (insert k r t)
  unfolding insert lookup
  insert-NoDup k r [] h = (refl, tt)
  insert-NoDup k r ((j, x) ∷ t) h = ground (arith, insert-NoDup k r t, lookup-insert k j r t)
