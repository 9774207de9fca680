-- ===== src/Payments/Ledger/Invariant.antt =====
-- The invariant of the ledger, over the tables that it reads.
use heritage_philippines_v.Prelude.{
  ℕ, Bool, true, false, some, List, ◌≡◌, ◌&&◌, not, ◌==◌, any, All, is_some,
}
use heritage_philippines_v.Prelude.Int.{pos, ◌+ℤ◌, ◌≤ℤ◌, ◌<ℤ◌}
use heritage_philippines_v.Payments.Model.{
  Decimal, Installment, Payment, PaymentStatus, PaymentRefund, PaymentRefundAllocation,
  PaymentAllocation, PaymentAllocationReversal,
}
use heritage_philippines_v.Payments.Store.{Store, sum_where}
use heritage_philippines_v.Payments.Repository.Plans.{find_installment}
use heritage_philippines_v.Payments.Repository.Payments.{find_payment}
use heritage_philippines_v.Payments.Repository.Refunds.{sum_refunds_for_payment}
use heritage_philippines_v.Payments.Repository.Allocations.{
  find_allocation, is_reversed, payment_counts,
}
use heritage_philippines_v.Payments.Ledger.Sums.{linked_refunds, net_of}

-- The allocations of a payment that are not reversed, net of the refunds linked to them.
abbrev pub of_payment : List PaymentAllocationReversal → ℕ → PaymentAllocation → Bool
of_payment reversals payment_id a = a.payment_id == payment_id && not (is_reversed reversals a.id)

abbrev pub of_installment :
    List Payment → List PaymentAllocationReversal → ℕ → PaymentAllocation → Bool
of_installment payments reversals installment_id a =
    a.installment_id == installment_id
    && not (is_reversed reversals a.id)
    && payment_counts payments a.payment_id

abbrev pub is_allocated : List PaymentAllocation → ℕ → Bool
is_allocated allocations payment_id =
    any (λ (a : PaymentAllocation). a.payment_id == payment_id) allocations

-- What the status of a payment says of its refunds and its allocations.
abbrev pub StatusFits : PaymentStatus → Decimal → Decimal → Decimal → Bool → Type 0
StatusFits PaymentStatus.confirmed amount refunded active allocated =
    (pos 0 ≤ℤ refunded) × (refunded <ℤ amount) × (active +ℤ refunded ≤ℤ amount)
StatusFits PaymentStatus.refunded amount refunded active allocated =
    (refunded ≡ amount) × (active ≤ℤ pos 0)
StatusFits PaymentStatus.reversed amount refunded active allocated = refunded ≡ pos 0
StatusFits PaymentStatus.pending amount refunded active allocated =
    (refunded ≡ pos 0) × (allocated ≡ false)
StatusFits PaymentStatus.rejected amount refunded active allocated =
    (refunded ≡ pos 0) × (allocated ≡ false)
StatusFits PaymentStatus.cancelled amount refunded active allocated =
    (refunded ≡ pos 0) × (allocated ≡ false)
StatusFits PaymentStatus.failed amount refunded active allocated =
    (refunded ≡ pos 0) × (allocated ≡ false)

module _ (payments : List Payment) (refunds : List PaymentRefund)
    (linked : List PaymentRefundAllocation) (allocations : List PaymentAllocation)
    (reversals : List PaymentAllocationReversal) (installments : List Installment) where
  pub record PaymentFits (p : Payment) : Type 0 where
    pub unique : find_payment payments p.id ≡ some p
    pub positive : pos 0 <ℤ p.amount
    pub status :
        StatusFits p.status p.amount
          (sum_refunds_for_payment refunds p.id)
          (sum_where (of_payment reversals p.id) (net_of linked) allocations)
          (is_allocated allocations p.id)

  pub record AllocationFits (a : PaymentAllocation) : Type 0 where
    pub unique : find_allocation allocations a.id ≡ some a
    pub positive : pos 0 <ℤ a.amount
    pub within : linked_refunds linked a.id ≤ℤ a.amount
    pub reversed_whole : is_reversed reversals a.id ≡ true → linked_refunds linked a.id ≡ pos 0
    pub has_payment : is_some (find_payment payments a.payment_id) ≡ true
    pub has_installment : is_some (find_installment installments a.installment_id) ≡ true

  pub record InstallmentFits (i : Installment) : Type 0 where
    pub unique : find_installment installments i.id ≡ some i
    pub positive : pos 0 <ℤ i.amount
    pub covered :
        sum_where (of_installment payments reversals i.id) (net_of linked) allocations ≤ℤ i.amount

  pub record RefundFits (r : PaymentRefund) : Type 0 where
    pub positive : pos 0 <ℤ r.amount
    pub has_payment : is_some (find_payment payments r.payment_id) ≡ true

  pub record LinkFits (r : PaymentRefundAllocation) : Type 0 where
    pub positive : pos 0 <ℤ r.amount
    pub has_allocation : is_some (find_allocation allocations r.payment_allocation_id) ≡ true

  pub record IsLedger : Type 0 where
    pub payment : All PaymentFits payments
    pub refund : All RefundFits refunds
    pub link : All LinkFits linked
    pub allocation : All AllocationFits allocations
    pub installment : All InstallmentFits installments

abbrev pub LedgerFits : Store → Type 0
LedgerFits s =
    IsLedger s.payments s.refunds s.refund_allocations s.allocations s.reversals s.installments
