-- ===== src/Payments/Service/Receipt.antt =====
-- Payments service: `issueReceipt`.
use heritage_philippines_v.Prelude.{ℕ, Bool, Option, none, some, [], ◌∷◌}
use heritage_philippines_v.Transaction.{
  Failure, Action, Schedule, pure, gets, require, or_throw, or_else, ◌>>=◌, ◌>>◌,
  run_serializable_with_retry, with_handler, is_unique_violation_on,
}
use heritage_philippines_v.Payments.Model.{
  Text, AuthenticatedUser, PaymentErrorCode, receipt_not_permitted, Payment, PaymentStatus, Receipt,
}
use heritage_philippines_v.Payments.Audit.{AuditEntity, AuditSnapshot, AuditAction}
use heritage_philippines_v.Payments.Store.{Store, World, PaymentTx}
use heritage_philippines_v.Payments.Repository.Bookings.{PaymentActor, find_booking_currency_code}
use heritage_philippines_v.Payments.Repository.Payments.{
  find_receipt_by_payment_id, create_receipt, insert_audit_log,
}
use heritage_philippines_v.Payments.Service.Actors.{
  assert_finance_actor, as_actor, find_scoped_payment_or_forbidden, replay_or_rethrow,
}
use heritage_philippines_v.Payments.Service.Replay.{same_status}

pub record IssueReceiptResult : Type 0 where
  pub receipt : Receipt
  pub payment_status : PaymentStatus

abbrev issued : PaymentStatus → Option Receipt → Option IssueReceiptResult
issued status none = none
issued status (some row) = some (record { receipt = row; payment_status = status })

-- The code that `!currencyCode` lets through: neither missing nor empty.
abbrev set_currency : Option Text → Option Text
set_currency none = none
set_currency (some []) = none
set_currency (some (c ∷ rest)) = some (c ∷ rest)

unfoldable pub issue_new_receipt : World → PaymentActor → Payment → PaymentTx IssueReceiptResult
issue_new_receipt w actor found = do
  require (same_status found.status PaymentStatus.confirmed) receipt_not_permitted
  currency ← gets (find_booking_currency_code found.booking_id)
  currency_code ← or_throw (set_currency currency) receipt_not_permitted
  created ← create_receipt (record {
    id = w.random_uuid 0;
    payment_id = found.id;
    receipt_number = w.random_uuid 1;
    issued_by_staff_user_id = actor.id;
    amount = found.amount;
    currency_code = currency_code;
  })
  insert_audit_log (record {
    id = w.random_uuid 2;
    actor_id = actor.id;
    action = AuditAction.receipt_issued;
    entity_type = AuditEntity.receipt;
    entity_id = created.id;
    before_state = none;
    after_state = some (
        AuditSnapshot.receipt_issue created.payment_id created.receipt_number
          (w.to_fixed created.amount));
  })
  pure (record { receipt = created; payment_status = found.status })

unfoldable pub issue_receipt_tx : World → PaymentActor → ℕ → PaymentTx IssueReceiptResult
issue_receipt_tx w actor payment_id = do
  found ← find_scoped_payment_or_forbidden actor payment_id
  existing ← gets (λ s. find_receipt_by_payment_id found.id s.receipts)
  or_else (issued found.status existing) (issue_new_receipt w actor found)

-- The read after a lost race.
unfoldable pub find_issued_receipt : PaymentActor → ℕ → PaymentTx (Option IssueReceiptResult)
find_issued_receipt actor payment_id = do
  payment ← find_scoped_payment_or_forbidden actor payment_id
  existing ← gets (λ s. find_receipt_by_payment_id payment.id s.receipts)
  pure (issued payment.status existing)

abbrev lost_receipt_race : Failure PaymentErrorCode → Bool
lost_receipt_race e = is_unique_violation_on e "Receipt" ("paymentId" ∷ [])

unfoldable pub issue_receipt :
    World
    → Schedule Store
    → AuthenticatedUser
    → ℕ
    → Action Store PaymentErrorCode IssueReceiptResult
issue_receipt w schedule actor payment_id = as_actor (assert_finance_actor actor) λ a.
    with_handler (run_serializable_with_retry schedule (issue_receipt_tx w a payment_id)) (λ e.
      replay_or_rethrow (lost_receipt_race e) schedule (find_issued_receipt a payment_id)
        receipt_not_permitted e)
