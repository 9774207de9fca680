-- ===== src/Payments/Ledger/Coverage.antt =====
-- How the net allocations of an installment move when payments change.
use heritage_philippines_v.Prelude.{
  ℕ, Bool, true, false, List, ◌≡◌, refl, ◌&&◌, not, ◌==◌, All, All-map, arith, if◌then◌else◌,
}
use heritage_philippines_v.Prelude.Int.{pos, ◌≤ℤ◌, int_laws}
use heritage_philippines_v.Payments.Model.{
  Decimal, Installment, Payment, PaymentRefund, PaymentRefundAllocation, PaymentAllocation,
  PaymentAllocationReversal,
}
use heritage_philippines_v.Payments.Store.{sum_where}
use heritage_philippines_v.Payments.Repository.Allocations.{is_reversed, payment_counts}
use heritage_philippines_v.Payments.Ledger.Sums.{net_of, sum_where_le}
use heritage_philippines_v.Payments.Ledger.Invariant.{AllocationFits, of_installment}

pub guarded_le :
    (b c d e : Bool) (f : Decimal)
    → pos 0 ≤ℤ f
    → (d ≡ true → e ≡ true)
    → (if b && c && d then f else pos 0) ≤ℤ (if b && c && e then f else pos 0)
guarded_le true true true true f h k = omega arith
guarded_le true true true false f h k = absurd (cc (k refl))
guarded_le true true false true f h k = h
guarded_le true true false false f h k = omega arith
guarded_le true false d e f h k = omega arith
guarded_le false c d e f h k = omega arith

module _ {payments : List Payment} {refunds : List PaymentRefund}
    {linked : List PaymentRefundAllocation} {allocations : List PaymentAllocation}
    {reversals : List PaymentAllocationReversal} {installments : List Installment} where
  -- An allocation never gives back more than it has.
  pub net_nonneg :
      (a : PaymentAllocation)
      → AllocationFits payments refunds linked allocations reversals installments a
      → pos 0 ≤ℤ net_of linked a
  net_nonneg a fits = omega (int_laws, fits.within)

module _ (payments payments' : List Payment) (linked : List PaymentRefundAllocation)
    (reversals : List PaymentAllocationReversal) where
  -- Where no payment comes to count, no installment is covered further.
  pub covered_le :
      (installment_id : ℕ) (allocations : List PaymentAllocation)
      → All
          (λ a.
            (pos 0 ≤ℤ net_of linked a)
            × (payment_counts payments' a.payment_id ≡ true
                → payment_counts payments a.payment_id ≡ true))
          allocations
      → sum_where (of_installment payments' reversals installment_id) (net_of linked) allocations
        ≤ℤ sum_where (of_installment payments reversals installment_id) (net_of linked) allocations
  covered_le installment_id allocations h =
      sum_where_le (of_installment payments' reversals installment_id)
        (of_installment payments reversals installment_id) (net_of linked) (net_of linked)
        allocations
        (All-map allocations
          (λ a k.
            guarded_le (a.installment_id == installment_id) (not (is_reversed reversals a.id))
              (payment_counts payments' a.payment_id) (payment_counts payments a.payment_id)
              (net_of linked a) k.0 k.1)
          h)
