-- ===== src/Payments/Service/Allocations.antt =====
-- Payments service: `createAllocation` and `reverseAllocation`.
use heritage_philippines_v.Prelude.{Bool, true, false, none, some, [], ◌∷◌, ◌||◌, not, ◌==◌}
use heritage_philippines_v.Prelude.Int.{◌+ℤ◌}
use heritage_philippines_v.Transaction.{
  Failure, unknown, Action, Schedule, pure, gets, require, throw_failure, or_throw, or_else, ◌>>=◌,
  ◌>>◌, run_serializable_with_retry, with_handler, is_unique_violation_on,
}
use heritage_philippines_v.Payments.Model.{
  Decimal, AuthenticatedUser, PaymentErrorCode, allocation_not_permitted,
  allocation_reversal_not_permitted, payment_forbidden, PaymentAllocation,
  PaymentAllocationReversal,
}
use heritage_philippines_v.Payments.Audit.{AuditEntity, AuditSnapshot, AuditAction}
use heritage_philippines_v.Payments.Calculations.{greater_than, compute_net_contribution}
use heritage_philippines_v.Payments.Store.{Store, World, PaymentTx}
use heritage_philippines_v.Payments.Repository.Bookings.{PaymentActor, find_booking_status}
use heritage_philippines_v.Payments.Repository.Plans.{find_installment_for_allocation}
use heritage_philippines_v.Payments.Repository.Payments.{insert_audit_log}
use heritage_philippines_v.Payments.Repository.Refunds.{sum_refunds_for_payment}
use heritage_philippines_v.Payments.Repository.Allocations.{
  sum_net_active_allocations_for_payment, sum_net_active_allocations_for_installment,
  create_allocation_row, find_allocation_for_reversal, create_allocation_reversal,
}
use heritage_philippines_v.Payments.Service.Actors.{
  assert_finance_actor, as_actor, assert_booking_open_for_payment, assert_booking_amount_precision,
  find_scoped_payment_or_forbidden, replay_or_rethrow,
}
use heritage_philippines_v.Payments.Service.Plans.{is_approved}
use heritage_philippines_v.Payments.Service.Replay.{
  CreateAllocationInput, ReverseAllocationInput, resolve_allocation_replay,
  resolve_allocation_reversal_replay,
}

-- A plain `Error`: it leaves the transaction as an unknown error.
unfoldable pub require_stored_refunds_within_amount : Decimal → Decimal → PaymentTx (Unit {0})
unfolding throw_failure pure
require_stored_refunds_within_amount amount refunded_total s =
    elim (greater_than refunded_total amount) [ true ↦ throw_failure unknown s | false ↦ pure tt s ]

unfoldable pub allocate_new :
    World → PaymentActor → CreateAllocationInput → PaymentTx PaymentAllocation
allocate_new w actor input = do
  payment ← find_scoped_payment_or_forbidden actor input.payment_id
  status ← gets (find_booking_status payment.booking_id)
  assert_booking_open_for_payment status
  assert_booking_amount_precision payment.booking_id input.amount
  row ← gets (find_installment_for_allocation input.installment_id)
  installment ← or_throw row allocation_not_permitted
  require (installment.booking_id == payment.booking_id) allocation_not_permitted
  require (is_approved installment.plan_status) allocation_not_permitted
  refunded_total ← gets (λ s. sum_refunds_for_payment s.refunds payment.id)
  require_stored_refunds_within_amount payment.amount refunded_total
  existing_net_active ← gets (sum_net_active_allocations_for_payment payment.id)
  let amount = w.to_decimal input.amount
  require
      (not (
        greater_than (existing_net_active +ℤ amount) (
          compute_net_contribution (record {
            status = payment.status;
            amount = payment.amount;
            refunded_total = refunded_total;
          }))))
      allocation_not_permitted
  installment_net_active ← gets (sum_net_active_allocations_for_installment installment.id)
  require (not (greater_than (installment_net_active +ℤ amount) installment.amount))
      allocation_not_permitted
  created ← create_allocation_row (record {
    id = w.random_uuid 0;
    payment_id = input.payment_id;
    installment_id = input.installment_id;
    amount = amount;
    allocated_by_staff_user_id = actor.id;
    idempotency_key = input.idempotency_key;
  })
  insert_audit_log (record {
    id = w.random_uuid 1;
    actor_id = actor.id;
    action = AuditAction.payment_allocation_created;
    entity_type = AuditEntity.payment_allocation;
    entity_id = created.id;
    before_state = none;
    after_state =
        some (AuditSnapshot.allocation created.payment_id created.installment_id input.amount);
  })
  pure created

unfoldable pub create_allocation_tx :
    World → PaymentActor → CreateAllocationInput → PaymentTx PaymentAllocation
create_allocation_tx w actor input = do
  replay ← resolve_allocation_replay w actor input
  or_else replay (allocate_new w actor input)

abbrev lost_allocation_race : Failure PaymentErrorCode → Bool
lost_allocation_race e = is_unique_violation_on e "PaymentAllocation" ("idempotencyKey" ∷ [])

unfoldable pub create_allocation :
    World
    → Schedule Store
    → AuthenticatedUser
    → CreateAllocationInput
    → Action Store PaymentErrorCode PaymentAllocation
create_allocation w schedule actor input = as_actor (assert_finance_actor actor) λ a.
    with_handler (run_serializable_with_retry schedule (create_allocation_tx w a input)) (λ e.
      replay_or_rethrow (lost_allocation_race e) schedule (resolve_allocation_replay w a input)
        allocation_not_permitted e)

unfoldable pub reverse_allocation_new :
    World → PaymentActor → ReverseAllocationInput → PaymentTx PaymentAllocationReversal
reverse_allocation_new w actor input = do
  row ← gets (find_allocation_for_reversal input.allocation_id)
  allocation ← or_throw row payment_forbidden
  _ ← find_scoped_payment_or_forbidden actor allocation.payment_id
  require (not allocation.has_reversal) allocation_reversal_not_permitted
  require (not allocation.has_refund_allocation) allocation_reversal_not_permitted
  created ← create_allocation_reversal (record {
    id = w.random_uuid 0;
    payment_allocation_id = allocation.id;
    reversed_by_staff_user_id = actor.id;
    reason = input.reason;
    idempotency_key = input.idempotency_key;
  })
  insert_audit_log (record {
    id = w.random_uuid 1;
    actor_id = actor.id;
    action = AuditAction.payment_allocation_reversed;
    entity_type = AuditEntity.payment_allocation;
    entity_id = allocation.id;
    before_state = none;
    after_state = some (AuditSnapshot.allocation_reversal allocation.id input.reason);
  })
  pure created

unfoldable pub reverse_allocation_tx :
    World → PaymentActor → ReverseAllocationInput → PaymentTx PaymentAllocationReversal
reverse_allocation_tx w actor input = do
  replay ← resolve_allocation_reversal_replay actor input
  or_else replay (reverse_allocation_new w actor input)

abbrev lost_reversal_race : Failure PaymentErrorCode → Bool
lost_reversal_race e =
    is_unique_violation_on e "PaymentAllocationReversal" ("idempotencyKey" ∷ [])
    || is_unique_violation_on e "PaymentAllocationReversal" ("paymentAllocationId" ∷ [])

unfoldable pub reverse_allocation :
    World
    → Schedule Store
    → AuthenticatedUser
    → ReverseAllocationInput
    → Action Store PaymentErrorCode PaymentAllocationReversal
reverse_allocation w schedule actor input = as_actor (assert_finance_actor actor) λ a.
    with_handler (run_serializable_with_retry schedule (reverse_allocation_tx w a input)) (λ e.
      replay_or_rethrow (lost_reversal_race e) schedule (resolve_allocation_reversal_replay a input)
        allocation_reversal_not_permitted e)
