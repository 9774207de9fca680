-- ===== src/Crm/Calls.antt =====
-- What every service call of leads and assignments does around its transaction: the check of the
-- actor before it, and the catch block after it.
use heritage_philippines_v.Prelude.{Bool, true, false, if◌then◌else◌}
use heritage_philippines_v.Transaction.{
  Failure, domain, Result, ok, err, Tx, Action, Schedule, run_serializable_with_retry, with_handler,
  is_residual_database_conflict,
}

module _ {S E A : Type 0} where
  -- A check that throws before the transaction, and the rest of the call.
  unfoldable pub permit : Bool → E → Action S E A → Action S E A
  permit true e call s = call s
  permit false e call s = (err (domain e), s)

  -- A feature's own error is thrown again, a residual conflict becomes `code`, and any other error
  -- is thrown again.
  unfoldable pub rethrow_as_conflict : E → Failure E → Action S E A
  rethrow_as_conflict code e s =
      (err (if is_residual_database_conflict e then domain code else e), s)

  unfoldable pub run_with_conflict : E → Schedule S → Tx S E A → Action S E A
  unfolding rethrow_as_conflict
  run_with_conflict code schedule fn =
      with_handler (run_serializable_with_retry schedule fn) (rethrow_as_conflict code)

  abbrev answered : S → Result E (A × S) → Result E A × S
  answered s (ok (a, t)) = (ok a, t)
  answered s (err e) = (err e, s)

  -- A read outside any transaction, or a transaction that is not tried again.
  unfoldable pub run_once : Tx S E A → Action S E A
  run_once fn s = answered s (fn s)
