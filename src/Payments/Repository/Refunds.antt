-- ===== src/Payments/Repository/Refunds.antt =====
-- Payments repository: refunds, and the allocations that they reopen.
use heritage_philippines_v.Prelude.{ℕ, Option, none, some, List, ◌∷◌, ◌==◌, any, find, is_some}
use heritage_philippines_v.Transaction.{pure, ◌>>◌}
use heritage_philippines_v.Payments.Model.{Decimal, Text, PaymentRefund, PaymentRefundAllocation}
use heritage_philippines_v.Payments.Store.{PaymentTx, sum_where, insert_unless}

unfoldable pub sum_refunds_for_payment : List PaymentRefund → ℕ → Decimal
sum_refunds_for_payment refunds payment_id =
    sum_where (λ r. r.payment_id == payment_id) (λ r. r.amount) refunds

unfoldable pub find_refund_by_idempotency_key : ℕ → List PaymentRefund → Option PaymentRefund
find_refund_by_idempotency_key key = find (λ r. r.idempotency_key == key)

-- `refundAllocations[0]?.paymentAllocationId ?? null`
unfoldable pub allocation_of_refund : ℕ → List PaymentRefundAllocation → Option ℕ
allocation_of_refund refund_id rows = elim (find (λ r. r.payment_refund_id == refund_id) rows) [
  | none ↦ none
  | some r ↦ some r.payment_allocation_id
]

pub record CreateRefundInput : Type 0 where
  pub id : ℕ
  pub payment_id : ℕ
  pub amount : Decimal
  pub reason : Text
  pub performed_by_staff_user_id : ℕ
  pub idempotency_key : ℕ
  pub allocation_id : Option ℕ
  pub allocation_refund_id : ℕ

abbrev pub refund_row : CreateRefundInput → PaymentRefund
refund_row input = record {
  id = input.id;
  payment_id = input.payment_id;
  amount = input.amount;
  reason = input.reason;
  performed_by_staff_user_id = input.performed_by_staff_user_id;
  idempotency_key = input.idempotency_key;
}

-- The nested create of at most one refund allocation.
abbrev pub link_refund :
    CreateRefundInput → Option ℕ → List PaymentRefundAllocation → List PaymentRefundAllocation
link_refund input none rows = rows
link_refund input (some allocation_id) rows =
    record {
      id = input.allocation_refund_id;
      payment_refund_id = input.id;
      payment_allocation_id = allocation_id;
      amount = input.amount;
    }
    ∷ rows

unfoldable pub create_refund : CreateRefundInput → PaymentTx PaymentRefund
unfolding insert_unless find_refund_by_idempotency_key
create_refund input s =
    (do
      insert_unless (any (λ (r : PaymentRefund). r.id == input.id) s.refunds) "PaymentRefund" "id"
          (λ t. t)
      insert_unless (is_some (find_refund_by_idempotency_key input.idempotency_key s.refunds))
          "PaymentRefund" "idempotencyKey"
          (λ t. record t {
            refunds = refund_row input ∷ t.refunds;
            refund_allocations = link_refund input input.allocation_id t.refund_allocations;
          })
      pure (refund_row input))
      s
