-- ===== src/Transaction/Safe.antt =====
-- Calls that keep a property of the store: the transaction with its retries, and the catch block.
use heritage_philippines_v.Prelude.{Bool, true, false, if◌then◌else◌}
use heritage_philippines_v.Transaction.Core.{Failure, Result, ok, err, Tx, Action, Schedule}
use heritage_philippines_v.Transaction.Retry.{run_serializable_with_retry, with_handler, handle}
use heritage_philippines_v.Transaction.Rules.{Ensures}
use heritage_philippines_v.Transaction.Laws.{Keeps, Ended, run_serializable-Ended}

-- The call leaves a store of which `P` holds, where `P` held before it.
abbrev pub Safe : {S E A : Type 0} → (S → Type 0) → Action S E A → Type 0
Safe {S} P call = (s : S) → P s → P (call s).1

module _ {S E A : Type 0} (P : S → Type 0) (schedule : Schedule S) where
  Ended-holds :
      (fn : Tx S E A) (r : Result E A × S)
      → ((s : S) → P s → Ensures (λ a t. P t) (fn s))
      → Ended P fn r
      → P r.1
  Ended-holds fn (ok a, t) kept ended = (kept ended.0 ended.1).at a t ended.2
  Ended-holds fn (err e, t) kept ended = ended

  pub run-Safe :
      (fn : Tx S E A)
      → Keeps P schedule
      → ((s : S) → P s → Ensures (λ a t. P t) (fn s))
      → Safe P (run_serializable_with_retry schedule fn)
  run-Safe fn others kept s h =
      Ended-holds fn _ kept (run_serializable-Ended P schedule fn s others h)

  pub with_handler-Safe :
      (call : Action S E A) (handler : Failure E → Action S E A)
      → Safe P call
      → ((e : Failure E) → Safe P (handler e))
      → Safe P (with_handler call handler)
  unfolding with_handler
  with_handler-Safe call handler safe handled s h = go (call s) (safe s h)
    where
      go : (r : Result E A × S) → P r.1 → P (handle handler r).1
      go (ok a, t) k = k
      go (err e, t) k = handled e t k

  pub if-Safe :
      (b : Bool) (first second : Action S E A)
      → Safe P first
      → Safe P second
      → Safe P (λ s. if b then first s else second s)
  if-Safe true first second h k = h
  if-Safe false first second h k = k
