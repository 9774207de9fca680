-- ===== src/Payments/Repository/Allocations.antt =====
-- Payments repository: allocations of payments to installments, and their reversals.
use heritage_philippines_v.Prelude.{
  ℕ, Bool, false, Option, none, some, List, [], ◌∷◌, ◌&&◌, not, ◌==◌, any, find, select, is_some,
}
use heritage_philippines_v.Prelude.Int.{pos, ◌+ℤ◌, ◌-ℤ◌}
use heritage_philippines_v.Transaction.{pure, ◌>>◌}
use heritage_philippines_v.Payments.Model.{
  Decimal, Payment, PaymentRefundAllocation, PaymentAllocation, PaymentAllocationReversal,
}
use heritage_philippines_v.Payments.Calculations.{counts}
use heritage_philippines_v.Payments.Store.{Store, PaymentTx, insert_unless}
use heritage_philippines_v.Payments.Repository.Payments.{find_payment}

unfoldable pub find_allocation : List PaymentAllocation → ℕ → Option PaymentAllocation
find_allocation rows id = find (λ a. a.id == id) rows

unfoldable pub find_allocation_by_idempotency_key :
    ℕ → List PaymentAllocation → Option PaymentAllocation
find_allocation_by_idempotency_key key = find (λ a. a.idempotency_key == key)

unfoldable pub create_allocation_row : PaymentAllocation → PaymentTx PaymentAllocation
unfolding insert_unless find_allocation find_allocation_by_idempotency_key
create_allocation_row row s =
    (do
      insert_unless (is_some (find_allocation s.allocations row.id)) "PaymentAllocation" "id"
          (λ t. t)
      insert_unless (is_some (find_allocation_by_idempotency_key row.idempotency_key s.allocations))
          "PaymentAllocation" "idempotencyKey" (λ t. record t { allocations = row ∷ t.allocations })
      pure row)
      s

-- The relation `reversal` of an allocation is not null.
unfoldable pub is_reversed : List PaymentAllocationReversal → ℕ → Bool
is_reversed reversals allocation_id =
    any (λ (r : PaymentAllocationReversal). r.payment_allocation_id == allocation_id) reversals

-- The relation `refundAllocations` of an allocation.
unfoldable pub refund_allocations_of :
    List PaymentRefundAllocation → ℕ → List PaymentRefundAllocation
refund_allocations_of rows allocation_id =
    select (λ (r : PaymentRefundAllocation). r.payment_allocation_id == allocation_id) rows

abbrev pub minus_each : Decimal → List PaymentRefundAllocation → Decimal
minus_each net [] = net
minus_each net (r ∷ rows) = minus_each (net -ℤ r.amount) rows

abbrev pub plus_each : Decimal → List PaymentRefundAllocation → Decimal
plus_each total [] = total
plus_each total (r ∷ rows) = plus_each (total +ℤ r.amount) rows

-- The `reduce` over the rows that a query found.
unfoldable pub net_active_total :
    List PaymentRefundAllocation → Decimal → List PaymentAllocation → Decimal
unfolding refund_allocations_of
net_active_total refunded total [] = total
net_active_total refunded total (a ∷ rows) =
    net_active_total refunded (minus_each (total +ℤ a.amount) (refund_allocations_of refunded a.id))
      rows

-- `payment: { status: { in: [CONFIRMED, REFUNDED] } }`
abbrev pub counts_found : Option Payment → Bool
counts_found none = false
counts_found (some p) = counts p.status

unfoldable pub payment_counts : List Payment → ℕ → Bool
payment_counts payments id = counts_found (find_payment payments id)

unfoldable pub sum_net_active_allocations_for_installment : ℕ → Store → Decimal
unfolding net_active_total is_reversed payment_counts
sum_net_active_allocations_for_installment installment_id s =
    net_active_total s.refund_allocations (pos 0) (
      select
        (λ (a : PaymentAllocation).
          a.installment_id == installment_id
          && not (is_reversed s.reversals a.id)
          && payment_counts s.payments a.payment_id)
        s.allocations)

unfoldable pub sum_net_active_allocations_for_payment : ℕ → Store → Decimal
unfolding net_active_total is_reversed
sum_net_active_allocations_for_payment payment_id s =
    net_active_total s.refund_allocations (pos 0) (
      select
        (λ (a : PaymentAllocation).
          a.payment_id == payment_id && not (is_reversed s.reversals a.id))
        s.allocations)

pub record AllocationForRefund : Type 0 where
  pub id : ℕ
  pub payment_id : ℕ
  pub amount : Decimal
  pub is_reversed : Bool
  pub refund_allocated_total : Decimal

unfoldable pub refund_allocated_total_of : List PaymentRefundAllocation → ℕ → Decimal
unfolding refund_allocations_of
refund_allocated_total_of rows id = plus_each (pos 0) (refund_allocations_of rows id)

unfoldable pub find_allocation_for_refund : ℕ → Store → Option AllocationForRefund
unfolding find_allocation is_reversed refund_allocated_total_of
find_allocation_for_refund id s = elim (find_allocation s.allocations id) [
  | none ↦ none
  | some a ↦ some (record {
    id = a.id;
    payment_id = a.payment_id;
    amount = a.amount;
    is_reversed = is_reversed s.reversals a.id;
    refund_allocated_total = refund_allocated_total_of s.refund_allocations a.id;
  })
]

pub record AllocationForReversal : Type 0 where
  pub id : ℕ
  pub payment_id : ℕ
  pub installment_id : ℕ
  pub amount : Decimal
  pub has_reversal : Bool
  pub has_refund_allocation : Bool

unfoldable pub find_allocation_for_reversal : ℕ → Store → Option AllocationForReversal
unfolding find_allocation is_reversed
find_allocation_for_reversal id s = elim (find_allocation s.allocations id) [
  | none ↦ none
  | some a ↦ some (record {
    id = a.id;
    payment_id = a.payment_id;
    installment_id = a.installment_id;
    amount = a.amount;
    has_reversal = is_reversed s.reversals a.id;
    has_refund_allocation =
        any (λ (r : PaymentRefundAllocation). r.payment_allocation_id == a.id) s.refund_allocations;
  })
]

unfoldable pub find_allocation_reversal_by_idempotency_key :
    ℕ → List PaymentAllocationReversal → Option PaymentAllocationReversal
find_allocation_reversal_by_idempotency_key key = find (λ r. r.idempotency_key == key)

unfoldable pub create_allocation_reversal :
    PaymentAllocationReversal → PaymentTx PaymentAllocationReversal
unfolding insert_unless is_reversed find_allocation_reversal_by_idempotency_key
create_allocation_reversal row s =
    (do
      insert_unless (any (λ (r : PaymentAllocationReversal). r.id == row.id) s.reversals)
          "PaymentAllocationReversal" "id" (λ t. t)
      insert_unless (is_reversed s.reversals row.payment_allocation_id) "PaymentAllocationReversal"
          "paymentAllocationId" (λ t. t)
      insert_unless
          (is_some (find_allocation_reversal_by_idempotency_key row.idempotency_key s.reversals))
          "PaymentAllocationReversal" "idempotencyKey"
          (λ t. record t { reversals = row ∷ t.reversals })
      pure row)
      s
