-- ===== src/Payments/Ledger/Unallocate.antt =====
-- The reversal of an allocation with no linked refund keeps the ledger.
use heritage_philippines_v.Prelude.{
  ℕ, Bool, true, false, List, ◌∷◌, ◌≡◌, inl, inr, ◌&&◌, ◌||◌, not, ◌==◌, All-map, arith, ap, ◌∙◌,
  sym, if◌then◌else◌, Bool-cases, ==→eq,
}
use heritage_philippines_v.Prelude.Int.{pos, ◌≤ℤ◌}
use heritage_philippines_v.Payments.Model.{
  Decimal, Installment, Payment, PaymentRefund, PaymentRefundAllocation, PaymentAllocation,
  PaymentAllocationReversal,
}
use heritage_philippines_v.Payments.Store.{sum_where}
use heritage_philippines_v.Payments.Repository.Refunds.{sum_refunds_for_payment}
use heritage_philippines_v.Payments.Repository.Allocations.{is_reversed, payment_counts}
use heritage_philippines_v.Payments.Ledger.Sums.{linked_refunds, net_of, sum_where_le}
use heritage_philippines_v.Payments.Ledger.Coverage.{net_nonneg}
use heritage_philippines_v.Payments.Ledger.Invariant.{
  IsLedger, AllocationFits, of_payment, of_installment, is_allocated,
}
use heritage_philippines_v.Payments.Ledger.StatusLaws.{StatusFits-le}

unless_or_le :
    (b c d e : Bool) (f : Decimal)
    → pos 0 ≤ℤ f
    → (if b && not (c || d) && e then f else pos 0) ≤ℤ (if b && not d && e then f else pos 0)
unless_or_le true true true e f h = omega arith
unless_or_le true true false true f h = h
unless_or_le true true false false f h = omega arith
unless_or_le true false d e f h = omega arith
unless_or_le false c d e f h = omega arith

unless_or_le2 :
    (b c d : Bool) (f : Decimal)
    → pos 0 ≤ℤ f
    → (if b && not (c || d) then f else pos 0) ≤ℤ (if b && not d then f else pos 0)
unless_or_le2 true true true f h = omega arith
unless_or_le2 true true false f h = h
unless_or_le2 true false d f h = omega arith
unless_or_le2 false c d f h = omega arith

module _ {payments : List Payment} {refunds : List PaymentRefund}
    {linked : List PaymentRefundAllocation} {allocations : List PaymentAllocation}
    {reversals : List PaymentAllocationReversal} {installments : List Installment}
    (ledger : IsLedger payments refunds linked allocations reversals installments)
    (r : PaymentAllocationReversal)
    (unlinked : linked_refunds linked r.payment_allocation_id ≡ pos 0) where
  active_le :
      (k : ℕ)
      → sum_where (of_payment (r ∷ reversals) k) (net_of linked) allocations
        ≤ℤ sum_where (of_payment reversals k) (net_of linked) allocations
  unfolding is_reversed
  active_le k =
      sum_where_le (of_payment (r ∷ reversals) k) (of_payment reversals k) (net_of linked)
        (net_of linked) allocations
        (All-map allocations
          (λ x fits.
            unless_or_le2 (x.payment_id == k) (r.payment_allocation_id == x.id)
              (is_reversed reversals x.id) (net_of linked x) (net_nonneg x fits))
          ledger.allocation)

  coverage_le :
      (k : ℕ)
      → sum_where (of_installment payments (r ∷ reversals) k) (net_of linked) allocations
        ≤ℤ sum_where (of_installment payments reversals k) (net_of linked) allocations
  unfolding is_reversed
  coverage_le k =
      sum_where_le (of_installment payments (r ∷ reversals) k) (of_installment payments reversals k)
        (net_of linked) (net_of linked) allocations
        (All-map allocations
          (λ x fits.
            unless_or_le (x.installment_id == k) (r.payment_allocation_id == x.id)
              (is_reversed reversals x.id) (payment_counts payments x.payment_id) (net_of linked x)
              (net_nonneg x fits))
          ledger.allocation)

  whole :
      (x : PaymentAllocation)
      → AllocationFits payments refunds linked allocations reversals installments x
      → is_reversed (r ∷ reversals) x.id ≡ true
      → linked_refunds linked x.id ≡ pos 0
  unfolding is_reversed
  whole x fits e = elim (Bool-cases (r.payment_allocation_id == x.id)) [
    | inl same ↦
        ap (linked_refunds linked) (sym (==→eq r.payment_allocation_id x.id same)) ∙ unlinked
    | inr other ↦ fits.reversed_whole (rw other at e)
  ]

  pub unallocate-IsLedger :
      IsLedger payments refunds linked allocations (r ∷ reversals) installments
  unallocate-IsLedger = record {
    payment =
        All-map payments
          (λ x fits. record {
            unique = fits.unique;
            positive = fits.positive;
            status =
                StatusFits-le x.status x.amount (sum_refunds_for_payment refunds x.id)
                  (sum_where (of_payment reversals x.id) (net_of linked) allocations)
                  (sum_where (of_payment (r ∷ reversals) x.id) (net_of linked) allocations)
                  (is_allocated allocations x.id) (active_le x.id) fits.status;
          })
          ledger.payment;
    refund =
        All-map refunds
          (λ x fits. record { positive = fits.positive; has_payment = fits.has_payment })
          ledger.refund;
    link =
        All-map linked
          (λ x fits. record { positive = fits.positive; has_allocation = fits.has_allocation })
          ledger.link;
    allocation =
        All-map allocations
          (λ x fits. record {
            unique = fits.unique;
            positive = fits.positive;
            within = fits.within;
            reversed_whole = whole x fits;
            has_payment = fits.has_payment;
            has_installment = fits.has_installment;
          })
          ledger.allocation;
    installment =
        All-map installments
          (λ x fits. record {
            unique = fits.unique;
            positive = fits.positive;
            covered = omega (arith, coverage_le x.id, fits.covered);
          })
          ledger.installment;
  }
