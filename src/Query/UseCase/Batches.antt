-- ===== src/Query/UseCase/Batches.antt =====
-- The batches of rows that QueryUseCases::execute answers
-- (crates/app/src/features/query/use_case.rs).
use mathlib.Core.Path.{subst}
use pairdbase.Common.{
  ℕ, zero, suc, ◌+◌, ◌*◌, ◌≤◌, ◌<◌, ◌≡◌, refl, List, [], ◌∷◌, ◌++◌, append_assoc, append-nil, arith,
  length, take, drop, length-take, length-drop, drop-eq-nil, take-append-drop, Bool-cases, ltb, inl,
  inr, ◌∙◌,
}
use pairdbase.Query.Domain.{QueryEvent, rows, StatementType}
use pairdbase.Query.Executor.{RawResult}
use pairdbase.Query.UseCase.{chunks, row_events, success_events, batch_size}

module _ {V : Type 0} where
  -- The rows that a sequence of events delivers.
  abbrev pub delivered : List (QueryEvent V) → List (List V)
  delivered [] = []
  delivered (rows e rs offset ∷ events) = rs ++ delivered events
  delivered (_ ∷ events) = delivered events

  -- Every batch of rows says how many rows came before it, and holds 1 to 500 rows.
  abbrev pub InSequence : ℕ → List (QueryEvent V) → Type 0
  InSequence n [] = Unit
  InSequence n (rows e rs offset ∷ events) =
      (offset ≡ n) × (0 < length rs) × (length rs ≤ batch_size) × InSequence (n + length rs) events
  InSequence n (_ ∷ events) = InSequence n events

  chunks-nil : (fuel k : ℕ) → chunks {A = List V} fuel k [] ≡ []
  unfolding chunks
  chunks-nil zero k = refl
  chunks-nil (suc fuel) k = refl

  delivered-append :
      (fuel k execution_id i : ℕ) (xs : List (List V)) (tail : List (QueryEvent V))
      → 0 < k
      → length xs ≤ fuel
      → delivered (row_events execution_id i (chunks fuel k xs) ++ tail) ≡ xs ++ delivered tail
  unfolding chunks row_events
  delivered-append zero k execution_id i [] tail h l = refl
  delivered-append zero k execution_id i (x ∷ xs) tail h l = absurd (omega arith)
  delivered-append (suc fuel) k execution_id i [] tail h l = refl
  delivered-append (suc fuel) k execution_id i (x ∷ xs) tail h l =
      let rest = drop k (x ∷ xs) in
      rw
        (delivered-append fuel k execution_id (i + 1) rest tail h
          (omega (arith, length-drop k (x ∷ xs))))
        (rw (← append_assoc (take k (x ∷ xs)) rest (delivered tail), take-append-drop k (x ∷ xs)))

  InSequence-append :
      (fuel k execution_id i : ℕ) (xs : List (List V)) (tail : List (QueryEvent V))
      → k ≡ batch_size
      → length xs ≤ fuel
      → ((n : ℕ) → InSequence n tail)
      → InSequence (i * batch_size) (row_events execution_id i (chunks fuel k xs) ++ tail)
  unfolding chunks row_events
  InSequence-append zero k execution_id i xs tail h l t = t (i * batch_size)
  InSequence-append (suc fuel) k execution_id i [] tail h l t = t (i * batch_size)
  InSequence-append (suc fuel) k execution_id i (x ∷ xs) tail h l t = (
    refl,
    omega (arith, length-take k (x ∷ xs)),
    omega (arith, length-take k (x ∷ xs)),
    elim (Bool-cases (ltb k (length (x ∷ xs)))) [
      | inl full ↦
          subst
            (λ n.
              InSequence n
                (row_events execution_id (i + 1) (chunks fuel k (drop k (x ∷ xs))) ++ tail))
            (ground (arith, length-take k (x ∷ xs)))
            (InSequence-append fuel k execution_id (i + 1) (drop k (x ∷ xs)) tail h
              (omega (arith, length-drop k (x ∷ xs))) t)
      | inr last ↦
          rw (drop-eq-nil k (x ∷ xs) (ground arith), chunks-nil fuel k)
            (t (i * batch_size + length (take k (x ∷ xs))))
    ],
  )

  -- The events of a success deliver exactly the rows of the result, in order, and each batch of at
  -- most 500 rows says how many came before it.
  pub success_events-deliver :
      (execution_id : ℕ) (t : StatementType) (raw : RawResult V) (duration_ms : ℕ)
      → let events = success_events execution_id t raw duration_ms in
        (delivered events ≡ raw.rows) × InSequence 0 events
  unfolding success_events
  success_events-deliver execution_id t raw duration_ms = (
    delivered-append (length raw.rows) batch_size execution_id 0 raw.rows _ (omega arith)
          (omega arith)
        ∙ append-nil raw.rows,
    InSequence-append (length raw.rows) batch_size execution_id 0 raw.rows _ refl (omega arith)
        (λ n. tt),
  )
