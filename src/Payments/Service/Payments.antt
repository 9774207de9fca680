-- ===== src/Payments/Service/Payments.antt =====
-- Payments service: `recordPayment`, `confirmPayment` and `reversePayment`.
use heritage_philippines_v.Prelude.{none, some, not}
use heritage_philippines_v.Prelude.Int.{pos}
use heritage_philippines_v.Transaction.{
  Action, Schedule, pure, gets, require, or_throw, or_else, ◌>>=◌, ◌>>◌,
  run_serializable_with_retry, with_handler,
}
use heritage_philippines_v.Payments.Model.{
  AuthenticatedUser, PaymentErrorCode, booking_forbidden, booking_currency_not_set,
  invalid_payment_transition, payment_conflict, Booking, Payment, PaymentStatus,
}
use heritage_philippines_v.Payments.Audit.{AuditEntity, AuditSnapshot, AuditAction}
use heritage_philippines_v.Payments.Calculations.{greater_than}
use heritage_philippines_v.Payments.Store.{Store, World, PaymentTx}
use heritage_philippines_v.Payments.Repository.Bookings.{
  PaymentActor, find_booking_financials_for_actor, find_booking_status,
}
use heritage_philippines_v.Payments.Repository.Payments.{
  create_pending_payment, transition_payment_status, insert_audit_log,
}
use heritage_philippines_v.Payments.Repository.Refunds.{sum_refunds_for_payment}
use heritage_philippines_v.Payments.Service.Actors.{
  assert_finance_actor, as_actor, assert_booking_open_for_payment, assert_amount_precision,
  find_scoped_payment_or_forbidden, is_status_history_key_violation, replay_or_rethrow,
}
use heritage_philippines_v.Payments.Service.Replay.{
  RecordPaymentInput, StatusInput, same_status, resolve_record_replay,
  resolve_status_transition_replay,
}

-- The rest of `recordPayment` for a key that is new.
unfoldable pub record_new_payment :
    World → PaymentActor → RecordPaymentInput → Booking → PaymentTx Payment
record_new_payment w actor input booking = do
  assert_booking_open_for_payment (some booking.status)
  currency_code ← or_throw booking.currency_code booking_currency_not_set
  assert_amount_precision input.amount currency_code
  created ← create_pending_payment (record {
    id = w.random_uuid 0;
    history_id = w.random_uuid 1;
    booking_id = input.booking_id;
    client_id = booking.client_id;
    amount = w.to_decimal input.amount;
    changed_by_user_id = actor.id;
    idempotency_key = input.idempotency_key;
  })
  insert_audit_log (record {
    id = w.random_uuid 2;
    actor_id = actor.id;
    action = AuditAction.payment_recorded;
    entity_type = AuditEntity.payment;
    entity_id = created.id;
    before_state = none;
    after_state = some (AuditSnapshot.recorded created.booking_id input.amount);
  })
  pure created

unfoldable pub record_payment_tx : World → PaymentActor → RecordPaymentInput → PaymentTx Payment
record_payment_tx w actor input = do
  found ← gets (find_booking_financials_for_actor actor input.booking_id)
  booking ← or_throw found booking_forbidden
  replay ← resolve_record_replay w actor input
  or_else replay (record_new_payment w actor input booking)

unfoldable pub record_payment :
    World
    → Schedule Store
    → AuthenticatedUser
    → RecordPaymentInput
    → Action Store PaymentErrorCode Payment
record_payment w schedule actor input = as_actor (assert_finance_actor actor) λ a.
    with_handler (run_serializable_with_retry schedule (record_payment_tx w a input)) (λ e.
      replay_or_rethrow (is_status_history_key_violation e) schedule
        (resolve_record_replay w a input) payment_conflict e)

-- The transition and its audit entry, which `confirmPayment` and `reversePayment` end with.
unfoldable pub change_status :
    World → PaymentActor → StatusInput → Payment → PaymentStatus → PaymentTx Payment
change_status w actor input found new_status = do
  updated ← transition_payment_status (record {
    payment_id = found.id;
    history_id = w.random_uuid 0;
    previous_status = found.status;
    new_status = new_status;
    changed_by_user_id = actor.id;
    reason = input.reason;
    idempotency_key = input.idempotency_key;
  })
  insert_audit_log (record {
    id = w.random_uuid 1;
    actor_id = actor.id;
    action = AuditAction.payment_status_changed;
    entity_type = AuditEntity.payment;
    entity_id = updated.id;
    before_state = some (AuditSnapshot.payment_status found.status);
    after_state = some (AuditSnapshot.payment_status_change updated.status input.reason);
  })
  pure updated

unfoldable pub confirm_new : World → PaymentActor → StatusInput → PaymentTx Payment
confirm_new w actor input = do
  found ← find_scoped_payment_or_forbidden actor input.payment_id
  status ← gets (find_booking_status found.booking_id)
  assert_booking_open_for_payment status
  require (same_status found.status PaymentStatus.pending) invalid_payment_transition
  change_status w actor input found PaymentStatus.confirmed

unfoldable pub confirm_payment_tx : World → PaymentActor → StatusInput → PaymentTx Payment
confirm_payment_tx w actor input = do
  replay ← resolve_status_transition_replay actor input PaymentStatus.confirmed
  or_else replay (confirm_new w actor input)

unfoldable pub confirm_payment :
    World → Schedule Store → AuthenticatedUser → StatusInput → Action Store PaymentErrorCode Payment
confirm_payment w schedule actor input = as_actor (assert_finance_actor actor) λ a.
    with_handler (run_serializable_with_retry schedule (confirm_payment_tx w a input)) (λ e.
      replay_or_rethrow (is_status_history_key_violation e) schedule
        (resolve_status_transition_replay a input PaymentStatus.confirmed) payment_conflict e)

unfoldable pub reverse_new : World → PaymentActor → StatusInput → PaymentTx Payment
reverse_new w actor input = do
  found ← find_scoped_payment_or_forbidden actor input.payment_id
  require (same_status found.status PaymentStatus.confirmed) invalid_payment_transition
  refunded_total ← gets (λ s. sum_refunds_for_payment s.refunds found.id)
  require (not (greater_than refunded_total (pos 0))) invalid_payment_transition
  change_status w actor input found PaymentStatus.reversed

unfoldable pub reverse_payment_tx : World → PaymentActor → StatusInput → PaymentTx Payment
reverse_payment_tx w actor input = do
  replay ← resolve_status_transition_replay actor input PaymentStatus.reversed
  or_else replay (reverse_new w actor input)

unfoldable pub reverse_payment :
    World → Schedule Store → AuthenticatedUser → StatusInput → Action Store PaymentErrorCode Payment
reverse_payment w schedule actor input = as_actor (assert_finance_actor actor) λ a.
    with_handler (run_serializable_with_retry schedule (reverse_payment_tx w a input)) (λ e.
      replay_or_rethrow (is_status_history_key_violation e) schedule
        (resolve_status_transition_replay a input PaymentStatus.reversed) payment_conflict e)
