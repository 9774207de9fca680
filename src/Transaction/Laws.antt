-- ===== src/Transaction/Laws.antt =====
-- What the retry of a serializable transaction guarantees, whatever other transactions commit
-- between its attempts.
use heritage_philippines_v.Prelude.{ℕ, zero, suc, ◌+◌, ◌≡◌, refl, none, some}
use heritage_philippines_v.Transaction.Core.{
  domain, retries_exhausted, unique, write_conflict, unknown, Result, ok, err, Tx, Action, Schedule,
  Commit, committed, conflicted, violated, broken, is_retryable_write_conflict,
}
use heritage_philippines_v.Transaction.Retry.{
  settle, after_attempt, retry_loop, run_serializable_with_retry,
}

-- Other transactions keep `P`.
pub record Keeps {S : Type 0} (P : S → Type 0) (schedule : Schedule S) : Type 0 where
  pub before : (n : ℕ) (s : S) → P s → P ((schedule.attempt n).others s)
  pub after : (s : S) → P s → P (schedule.settled s)

-- How a call ended: an answer comes from one run of the body `fn` over a store where `P` held, and
-- the call leaves the store of that run; after an error `P` holds.
abbrev pub Ended : {S E A : Type 0} → (S → Type 0) → Tx S E A → Result E A × S → Type 0
Ended {S} P fn (ok a, s) = (t : S) × P t × (fn t ≡ ok (a, s))
Ended P fn (err e, s) = P s

module _ {S E A : Type 0} (P : S → Type 0) (schedule : Schedule S) (fn : Tx S E A) where
  Ended-settle :
      (c : Commit) (s : S) (r : Result E (A × S)) → fn s ≡ r → P s → Ended P fn (settle c s r)
  Ended-settle committed s (ok p) e h = (s, h, e)
  Ended-settle committed s (err x) e h = h
  Ended-settle conflicted s (ok p) e h = h
  Ended-settle conflicted s (err x) e h = h
  Ended-settle broken s (ok p) e h = h
  Ended-settle broken s (err x) e h = h
  Ended-settle (violated v) s (ok p) e h = h
  Ended-settle (violated v) s (err x) e h = h

  Ended-last : (n : ℕ) (r : Result E A × S) → Ended P fn r → Ended P fn (after_attempt n none r)
  unfolding is_retryable_write_conflict
  Ended-last n (ok a, s) h = h
  Ended-last n (err (domain e), s) h = h
  Ended-last n (err (unique v), s) h = h
  Ended-last n (err write_conflict, s) h = h
  Ended-last n (err (retries_exhausted k), s) h = h
  Ended-last n (err unknown, s) h = h

  Ended-again :
      (n : ℕ) (next : Action S E A) (r : Result E A × S)
      → ((s : S) → P s → Ended P fn (next s))
      → Ended P fn r
      → Ended P fn (after_attempt n (some next) r)
  unfolding is_retryable_write_conflict
  Ended-again n next (ok a, s) k h = h
  Ended-again n next (err (domain e), s) k h = h
  Ended-again n next (err (unique v), s) k h = h
  Ended-again n next (err write_conflict, s) k h = k s h
  Ended-again n next (err (retries_exhausted j), s) k h = h
  Ended-again n next (err unknown, s) k h = h

  retry_loop-Ended :
      (left attempt : ℕ) (s : S)
      → Keeps P schedule
      → P s
      → Ended P fn (retry_loop left attempt schedule fn s)
  unfolding retry_loop
  retry_loop-Ended zero attempt s others h =
      let now = schedule.attempt attempt in
      let start = now.others s in
      Ended-last attempt _
        (Ended-settle now.outcome start (fn start) refl (others.before attempt s h))
  retry_loop-Ended (suc left) attempt s others h =
      let now = schedule.attempt attempt in
      let start = now.others s in
      Ended-again attempt (retry_loop left (attempt + 1) schedule fn) _
        (λ t k. retry_loop-Ended left (attempt + 1) t others k)
        (Ended-settle now.outcome start (fn start) refl (others.before attempt s h))

  -- Where `P` holds and the other transactions keep it, a call that answers leaves the store of one
  -- run of the body over a store of which `P` holds, and answers with that run's answer; a call that
  -- ends in an error leaves a store of which `P` holds.
  pub run_serializable-Ended :
      (s : S) → Keeps P schedule → P s → Ended P fn (run_serializable_with_retry schedule fn s)
  unfolding run_serializable_with_retry
  run_serializable-Ended s others h = retry_loop-Ended 2 1 s others h
