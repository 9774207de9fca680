-- ===== src/Transaction/Retry.antt =====
-- apps/web/src/lib/serializable-transaction.ts: the bounded retry of a serializable transaction, and
-- the try/catch that every service function puts around it.
use heritage_philippines_v.Prelude.{ℕ, zero, suc, ◌+◌, ◌-◌, true, false, Option, none, some}
use heritage_philippines_v.Transaction.Core.{
  Failure, unique, write_conflict, retries_exhausted, unknown, Result, ok, err, Tx, Action,
  Schedule, Commit, committed, conflicted, violated, broken, is_retryable_write_conflict,
}

abbrev pub max_serializable_retries : ℕ
max_serializable_retries = 3

module _ {S E A : Type 0} where
  -- How the attempt over the store `s` ends: a failed one leaves the store as it was.
  abbrev pub settle : Commit → S → Result E (A × S) → Result E A × S
  settle committed s (err e) = (err e, s)
  settle committed s (ok (a, s')) = (ok a, s')
  settle conflicted s (err e) = (err e, s)
  settle conflicted s (ok (a, s')) = (err write_conflict, s)
  settle broken s (err e) = (err e, s)
  settle broken s (ok (a, s')) = (err unknown, s)
  settle (violated v) s (err e) = (err e, s)
  settle (violated v) s (ok (a, s')) = (err (unique v), s)

  -- `again` is the next turn of the loop; `none` means that no attempt is left.
  abbrev pub after_attempt : ℕ → Option (Action S E A) → Result E A × S → Result E A × S
  after_attempt attempt again (ok a, s) = (ok a, s)
  after_attempt attempt again (err e, s) = elim (is_retryable_write_conflict e) [
    | false ↦ (err e, s)
    | true ↦ elim again [ none ↦ (err (retries_exhausted attempt), s) | some next ↦ next s ]
  ]

  -- `for (let attempt = 1; ; attempt += 1)`; `left` is how many attempts may follow this one.
  unfoldable pub retry_loop : ℕ → ℕ → Schedule S → Tx S E A → Action S E A
  unfolding is_retryable_write_conflict
  retry_loop zero attempt schedule fn s =
      let now = schedule.attempt attempt in
      let start = now.others s in after_attempt attempt none (settle now.outcome start (fn start))
  retry_loop (suc left) attempt schedule fn s =
      let now = schedule.attempt attempt in
      let start = now.others s in
      after_attempt attempt (some (retry_loop left (attempt + 1) schedule fn))
        (settle now.outcome start (fn start))

  unfoldable pub run_serializable_with_retry : Schedule S → Tx S E A → Action S E A
  unfolding retry_loop
  run_serializable_with_retry = retry_loop (max_serializable_retries - 1) 1

  abbrev pub handle : (Failure E → Action S E A) → Result E A × S → Result E A × S
  handle handler (ok a, s) = (ok a, s)
  handle handler (err e, s) = handler e s

  -- `try { return await m } catch (error) { ... }`
  unfoldable pub with_handler : Action S E A → (Failure E → Action S E A) → Action S E A
  with_handler m handler s = handle handler (m s)

  abbrev pub answer_at : S → Result E (A × S) → Result E A × S
  answer_at now (ok (a, t)) = (ok a, now)
  answer_at now (err e) = (err e, now)

  -- A read outside the transaction, after others have committed: it changes nothing.
  unfoldable pub read_now : Schedule S → Tx S E A → Action S E A
  read_now schedule fn s = answer_at (schedule.settled s) (fn (schedule.settled s))
