-- ===== src/Payments/Service/Refund.antt =====
-- Payments service: `refundPayment`.
use heritage_philippines_v.Prelude.{
  ℕ, Bool, Option, none, some, [], ◌∷◌, ◌&&◌, not, ◌==◌, is_some, if◌then◌else◌,
}
use heritage_philippines_v.Prelude.Int.{pos, ◌+ℤ◌, ◌-ℤ◌, eqb_ℤ}
use heritage_philippines_v.Transaction.{
  Failure, Action, Schedule, pure, gets, require, or_throw, or_else, ◌>>=◌, ◌>>◌,
  run_serializable_with_retry, with_handler, is_unique_violation_on,
}
use heritage_philippines_v.Payments.Model.{
  Decimal, AuthenticatedUser, PaymentErrorCode, invalid_payment_transition, payment_conflict,
  refund_exceeds_remaining, allocation_not_permitted, idempotency_key_conflict, Payment,
  PaymentStatus, PaymentRefund,
}
use heritage_philippines_v.Payments.Audit.{AuditEntity, AuditSnapshot, AuditAction}
use heritage_philippines_v.Payments.Calculations.{greater_than}
use heritage_philippines_v.Payments.Store.{Store, World, PaymentTx}
use heritage_philippines_v.Payments.Repository.Bookings.{PaymentActor}
use heritage_philippines_v.Payments.Repository.Payments.{
  find_status_history_by_idempotency_key, transition_payment_status, insert_audit_log,
}
use heritage_philippines_v.Payments.Repository.Refunds.{sum_refunds_for_payment, create_refund}
use heritage_philippines_v.Payments.Repository.Allocations.{
  find_allocation_for_refund, sum_net_active_allocations_for_payment,
}
use heritage_philippines_v.Payments.Service.Actors.{
  assert_finance_actor, as_actor, assert_booking_amount_precision, find_scoped_payment_or_forbidden,
  replay_or_rethrow,
}
use heritage_philippines_v.Payments.Service.Replay.{
  RefundPaymentInput, RefundPaymentResult, same_status, resolve_refund_replay,
}

-- `if (input.allocationId) { ... }`
unfoldable pub check_refund_allocation : Payment → Decimal → Option ℕ → PaymentTx (Unit {0})
check_refund_allocation found amount none = pure tt
check_refund_allocation found amount (some allocation_id) = do
  row ← gets (find_allocation_for_refund allocation_id)
  allocation ← or_throw row allocation_not_permitted
  require (allocation.payment_id == found.id && not allocation.is_reversed) allocation_not_permitted
  require (not (greater_than (allocation.refund_allocated_total +ℤ amount) allocation.amount))
      refund_exceeds_remaining

abbrev pub linked_amount : Decimal → Option ℕ → Decimal
linked_amount amount none = pos 0
linked_amount amount (some allocation_id) = amount

-- The refund brought the total to the payment's amount: the payment becomes `REFUNDED`.
unfoldable pub complete_refund :
    World
    → PaymentActor
    → RefundPaymentInput
    → Payment
    → PaymentRefund
    → PaymentTx RefundPaymentResult
complete_refund w actor input found refund = do
  payment ← transition_payment_status (record {
    payment_id = found.id;
    history_id = w.random_uuid 3;
    previous_status = found.status;
    new_status = PaymentStatus.refunded;
    changed_by_user_id = actor.id;
    reason = input.reason;
    idempotency_key = input.idempotency_key;
  })
  insert_audit_log (record {
    id = w.random_uuid 4;
    actor_id = actor.id;
    action = AuditAction.payment_status_changed;
    entity_type = AuditEntity.payment;
    entity_id = payment.id;
    before_state = some (AuditSnapshot.payment_status found.status);
    after_state = some (AuditSnapshot.payment_status_change payment.status input.reason);
  })
  pure (record { refund = refund; payment = payment })

-- The rows and the audit entries of a refund that has passed every check.
unfoldable pub write_refund :
    World → PaymentActor → RefundPaymentInput → Payment → Decimal → PaymentTx RefundPaymentResult
write_refund w actor input found existing_refund_total = do
  let amount = w.to_decimal input.amount
  let new_refund_total = existing_refund_total +ℤ amount
  let completes_refund = eqb_ℤ new_refund_total found.amount
  refund ← create_refund (record {
    id = w.random_uuid 0;
    payment_id = found.id;
    amount = amount;
    reason = input.reason;
    performed_by_staff_user_id = actor.id;
    idempotency_key = input.idempotency_key;
    allocation_id = input.allocation_id;
    allocation_refund_id = w.random_uuid 1;
  })
  insert_audit_log (record {
    id = w.random_uuid 2;
    actor_id = actor.id;
    action = AuditAction.payment_refunded;
    entity_type = AuditEntity.payment;
    entity_id = found.id;
    before_state =
        some (AuditSnapshot.refund_before found.status (w.to_fixed existing_refund_total));
    after_state = some (
        AuditSnapshot.refund_after (record {
          payment_id = found.id;
          amount = input.amount;
          reason = input.reason;
          allocation_id = input.allocation_id;
          status = if completes_refund then PaymentStatus.refunded else found.status;
          refunded_total = w.to_fixed new_refund_total;
        }));
  })
  if completes_refund
      then complete_refund w actor input found refund
      else pure (record { refund = refund; payment = found })

-- The rest of `refundPayment` for a key that is new among the refunds.
unfoldable pub refund_new :
    World → PaymentActor → RefundPaymentInput → PaymentTx RefundPaymentResult
refund_new w actor input = do
  taken ← gets (λ s. find_status_history_by_idempotency_key input.idempotency_key s.history)
  require (not (is_some taken)) idempotency_key_conflict
  found ← find_scoped_payment_or_forbidden actor input.payment_id
  require (same_status found.status PaymentStatus.confirmed) invalid_payment_transition
  assert_booking_amount_precision found.booking_id input.amount
  existing_refund_total ← gets (λ s. sum_refunds_for_payment s.refunds found.id)
  let amount = w.to_decimal input.amount
  require (not (greater_than (existing_refund_total +ℤ amount) found.amount))
      refund_exceeds_remaining
  check_refund_allocation found amount input.allocation_id
  net_active ← gets (sum_net_active_allocations_for_payment found.id)
  require
      (not (
        greater_than (net_active -ℤ linked_amount amount input.allocation_id)
          (found.amount -ℤ (existing_refund_total +ℤ amount))))
      refund_exceeds_remaining
  write_refund w actor input found existing_refund_total

unfoldable pub refund_payment_tx :
    World → PaymentActor → RefundPaymentInput → PaymentTx RefundPaymentResult
refund_payment_tx w actor input = do
  replay ← resolve_refund_replay w actor input
  or_else replay (refund_new w actor input)

abbrev lost_refund_race : Failure PaymentErrorCode → Bool
lost_refund_race e = is_unique_violation_on e "PaymentRefund" ("idempotencyKey" ∷ [])

unfoldable pub refund_payment :
    World
    → Schedule Store
    → AuthenticatedUser
    → RefundPaymentInput
    → Action Store PaymentErrorCode RefundPaymentResult
refund_payment w schedule actor input = as_actor (assert_finance_actor actor) λ a.
    with_handler (run_serializable_with_retry schedule (refund_payment_tx w a input)) (λ e.
      replay_or_rethrow (lost_refund_race e) schedule (resolve_refund_replay w a input)
        payment_conflict e)
