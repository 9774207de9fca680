-- ===== src/Payments/Service/Replay.antt =====
-- Payments service: how a retry with a known idempotency key is answered, and the inputs that carry
-- such a key.
use heritage_philippines_v.Prelude.{
  ℕ, Bool, true, false, Option, none, some, ◌&&◌, not, ◌==◌, is_some,
}
use heritage_philippines_v.Prelude.Int.{eqb_ℤ}
use heritage_philippines_v.Transaction.{pure, gets, require, or_throw, ◌>>=◌, ◌>>◌}
use heritage_philippines_v.Payments.Model.{
  Text, PaymentStatus, Payment, PaymentStatusHistory, PaymentRefund, PaymentAllocation,
  PaymentAllocationReversal, idempotency_key_conflict, payment_forbidden,
}
use heritage_philippines_v.Payments.Store.{World, PaymentTx}
use heritage_philippines_v.Payments.Repository.Bookings.{PaymentActor}
use heritage_philippines_v.Payments.Repository.Payments.{
  find_payment_for_actor, find_status_history_by_idempotency_key,
}
use heritage_philippines_v.Payments.Repository.Refunds.{
  find_refund_by_idempotency_key, allocation_of_refund,
}
use heritage_philippines_v.Payments.Repository.Allocations.{
  find_allocation_by_idempotency_key, find_allocation_for_reversal,
  find_allocation_reversal_by_idempotency_key,
}
use heritage_philippines_v.Payments.Service.Actors.{find_scoped_payment_or_forbidden}

pub record RecordPaymentInput : Type 0 where
  pub booking_id : ℕ
  pub amount : Text
  pub idempotency_key : ℕ

-- The input of `confirmPayment` and of `reversePayment`.
pub record StatusInput : Type 0 where
  pub payment_id : ℕ
  pub reason : Text
  pub idempotency_key : ℕ

pub record RefundPaymentInput : Type 0 where
  pub payment_id : ℕ
  pub amount : Text
  pub reason : Text
  pub idempotency_key : ℕ
  pub allocation_id : Option ℕ

pub record CreateAllocationInput : Type 0 where
  pub payment_id : ℕ
  pub installment_id : ℕ
  pub amount : Text
  pub idempotency_key : ℕ

pub record ReverseAllocationInput : Type 0 where
  pub allocation_id : ℕ
  pub reason : Text
  pub idempotency_key : ℕ

pub record RefundPaymentResult : Type 0 where
  pub refund : PaymentRefund
  pub payment : Payment

abbrev pub same_status : PaymentStatus → PaymentStatus → Bool
same_status PaymentStatus.pending PaymentStatus.pending = true
same_status PaymentStatus.confirmed PaymentStatus.confirmed = true
same_status PaymentStatus.rejected PaymentStatus.rejected = true
same_status PaymentStatus.cancelled PaymentStatus.cancelled = true
same_status PaymentStatus.failed PaymentStatus.failed = true
same_status PaymentStatus.refunded PaymentStatus.refunded = true
same_status PaymentStatus.reversed PaymentStatus.reversed = true
same_status _ _ = false

abbrev pub same_id : Option ℕ → Option ℕ → Bool
same_id none none = true
same_id (some a) (some b) = a == b
same_id none (some b) = false
same_id (some a) none = false

abbrev matches_record : World → RecordPaymentInput → Payment → Bool
matches_record w input p =
    p.booking_id == input.booking_id && eqb_ℤ p.amount (w.to_decimal input.amount)

abbrev pub answer_record :
    World → PaymentActor → RecordPaymentInput → PaymentStatusHistory → PaymentTx (Option Payment)
answer_record w actor input row = do
  require (not (is_some row.previous_status) && same_status row.new_status PaymentStatus.pending)
      idempotency_key_conflict
  found ← gets (find_payment_for_actor actor row.payment_id)
  payment ← or_throw found idempotency_key_conflict
  require (matches_record w input payment) idempotency_key_conflict
  pure (some payment)

unfoldable pub resolve_record_replay :
    World → PaymentActor → RecordPaymentInput → PaymentTx (Option Payment)
resolve_record_replay w actor input s =
    elim (find_status_history_by_idempotency_key input.idempotency_key s.history) [
      | none ↦ pure none s
      | some row ↦ answer_record w actor input row s
    ]

abbrev pub answer_transition :
    PaymentActor → StatusInput → PaymentStatus → PaymentStatusHistory → PaymentTx (Option Payment)
answer_transition actor input target_status row = do
  require (row.payment_id == input.payment_id && same_status row.new_status target_status)
      idempotency_key_conflict
  payment ← find_scoped_payment_or_forbidden actor row.payment_id
  pure (some payment)

unfoldable pub resolve_status_transition_replay :
    PaymentActor → StatusInput → PaymentStatus → PaymentTx (Option Payment)
resolve_status_transition_replay actor input target_status s =
    elim (find_status_history_by_idempotency_key input.idempotency_key s.history) [
      | none ↦ pure none s
      | some row ↦ answer_transition actor input target_status row s
    ]

abbrev answer_refund :
    World
    → PaymentActor
    → RefundPaymentInput
    → PaymentRefund
    → PaymentTx (Option RefundPaymentResult)
answer_refund w actor input existing = do
  linked ← gets (λ s. allocation_of_refund existing.id s.refund_allocations)
  require
      (existing.payment_id == input.payment_id
        && eqb_ℤ existing.amount (w.to_decimal input.amount)
        && same_id linked input.allocation_id)
      idempotency_key_conflict
  payment ← find_scoped_payment_or_forbidden actor existing.payment_id
  pure (some (record { refund = existing; payment = payment }))

unfoldable pub resolve_refund_replay :
    World → PaymentActor → RefundPaymentInput → PaymentTx (Option RefundPaymentResult)
resolve_refund_replay w actor input s =
    elim (find_refund_by_idempotency_key input.idempotency_key s.refunds) [
      | none ↦ pure none s
      | some existing ↦ answer_refund w actor input existing s
    ]

abbrev answer_allocation :
    World
    → PaymentActor
    → CreateAllocationInput
    → PaymentAllocation
    → PaymentTx (Option PaymentAllocation)
answer_allocation w actor input existing = do
  require
      (existing.payment_id == input.payment_id
        && existing.installment_id == input.installment_id
        && eqb_ℤ existing.amount (w.to_decimal input.amount))
      idempotency_key_conflict
  _ ← find_scoped_payment_or_forbidden actor existing.payment_id
  pure (some existing)

unfoldable pub resolve_allocation_replay :
    World → PaymentActor → CreateAllocationInput → PaymentTx (Option PaymentAllocation)
resolve_allocation_replay w actor input s =
    elim (find_allocation_by_idempotency_key input.idempotency_key s.allocations) [
      | none ↦ pure none s
      | some existing ↦ answer_allocation w actor input existing s
    ]

abbrev answer_reversal :
    PaymentActor
    → ReverseAllocationInput
    → PaymentAllocationReversal
    → PaymentTx (Option PaymentAllocationReversal)
answer_reversal actor input existing = do
  require (existing.payment_allocation_id == input.allocation_id) idempotency_key_conflict
  found ← gets (find_allocation_for_reversal existing.payment_allocation_id)
  allocation ← or_throw found payment_forbidden
  _ ← find_scoped_payment_or_forbidden actor allocation.payment_id
  pure (some existing)

unfoldable pub resolve_allocation_reversal_replay :
    PaymentActor → ReverseAllocationInput → PaymentTx (Option PaymentAllocationReversal)
resolve_allocation_reversal_replay actor input s =
    elim (find_allocation_reversal_by_idempotency_key input.idempotency_key s.reversals) [
      | none ↦ pure none s
      | some existing ↦ answer_reversal actor input existing s
    ]
