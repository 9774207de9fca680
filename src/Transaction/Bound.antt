-- ===== src/Transaction/Bound.antt =====
-- How many attempts a serializable transaction makes, and which errors it tries again.
use heritage_philippines_v.Prelude.{
  ℕ, zero, suc, ◌+◌, ◌≤◌, ◌≡◌, refl, Bool, false, none, some, arith,
}
use heritage_philippines_v.Transaction.Core.{
  domain, retries_exhausted, unique, write_conflict, unknown, Result, ok, err, Tx, Action, Schedule,
  is_retryable_write_conflict,
}
use heritage_philippines_v.Transaction.Retry.{
  after_attempt, retry_loop, run_serializable_with_retry, max_serializable_retries,
}

abbrev pub is_conflict_answer : {E A : Type 0} → Result E A → Bool
is_conflict_answer (ok a) = false
is_conflict_answer (err e) = is_retryable_write_conflict e

module _ {S E A : Type 0} (schedule : Schedule S) (fn : Tx S E A) where
  last-not_conflict :
      (n : ℕ) (r : Result E A × S) → is_conflict_answer (after_attempt n none r).0 ≡ false
  unfolding is_retryable_write_conflict
  last-not_conflict n (ok a, s) = refl
  last-not_conflict n (err (domain e), s) = refl
  last-not_conflict n (err (unique v), s) = refl
  last-not_conflict n (err write_conflict, s) = refl
  last-not_conflict n (err (retries_exhausted k), s) = refl
  last-not_conflict n (err unknown, s) = refl

  again-not_conflict :
      (n : ℕ) (next : Action S E A) (r : Result E A × S)
      → ((s : S) → is_conflict_answer (next s).0 ≡ false)
      → is_conflict_answer (after_attempt n (some next) r).0 ≡ false
  unfolding is_retryable_write_conflict
  again-not_conflict n next (ok a, s) h = refl
  again-not_conflict n next (err (domain e), s) h = refl
  again-not_conflict n next (err (unique v), s) h = refl
  again-not_conflict n next (err write_conflict, s) h = h s
  again-not_conflict n next (err (retries_exhausted k), s) h = refl
  again-not_conflict n next (err unknown, s) h = refl

  loop-not_conflict :
      (left attempt : ℕ) (s : S)
      → is_conflict_answer (retry_loop left attempt schedule fn s).0 ≡ false
  unfolding retry_loop
  loop-not_conflict zero attempt s = last-not_conflict attempt _
  loop-not_conflict (suc left) attempt s =
      again-not_conflict attempt _ _ (λ t. loop-not_conflict left (attempt + 1) t)

  -- A write conflict never leaves the retry: whatever the schedule of the other transactions and
  -- whatever the body, the answer is no write conflict.
  pub run_serializable-not_conflict :
      (s : S) → is_conflict_answer (run_serializable_with_retry schedule fn s).0 ≡ false
  unfolding run_serializable_with_retry
  run_serializable-not_conflict s = loop-not_conflict 2 1 s

-- Two schedules with the same attempts from `attempt` to `attempt + left`.
abbrev Agree : {S : Type 0} → ℕ → ℕ → Schedule S → Schedule S → Type 0
Agree left attempt a b = (n : ℕ) → attempt ≤ n → n ≤ attempt + left → a.attempt n ≡ b.attempt n

module _ {S E A : Type 0} (a b : Schedule S) (fn : Tx S E A) where
  again-cong :
      (n : ℕ) (f g : Action S E A) (r : Result E A × S)
      → ((s : S) → f s ≡ g s)
      → after_attempt n (some f) r ≡ after_attempt n (some g) r
  unfolding is_retryable_write_conflict
  again-cong n f g (ok x, s) h = refl
  again-cong n f g (err (domain e), s) h = refl
  again-cong n f g (err (unique v), s) h = refl
  again-cong n f g (err write_conflict, s) h = h s
  again-cong n f g (err (retries_exhausted k), s) h = refl
  again-cong n f g (err unknown, s) h = refl

  loop-cong :
      (left attempt : ℕ) (s : S)
      → Agree left attempt a b
      → retry_loop left attempt a fn s ≡ retry_loop left attempt b fn s
  unfolding retry_loop
  loop-cong zero attempt s same = rw (same attempt (omega arith) (omega arith)) refl
  loop-cong (suc left) attempt s same = rw (same attempt (omega arith) (omega arith)) (
      again-cong attempt _ _ _
        (λ t. loop-cong left (attempt + 1) t (λ n low high. same n (omega arith) (omega arith))))

  -- A call makes at most three attempts: schedules that agree on the attempts 1, 2 and 3 give the
  -- same answer and the same store.
  pub run_serializable-bounded :
      (s : S)
      → ((n : ℕ) → 1 ≤ n → n ≤ max_serializable_retries → a.attempt n ≡ b.attempt n)
      → run_serializable_with_retry a fn s ≡ run_serializable_with_retry b fn s
  unfolding run_serializable_with_retry
  run_serializable-bounded s same = loop-cong 2 1 s same
