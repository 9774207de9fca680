-- ===== src/Payments/Ledger/Installments.antt =====
-- The installments of a proposed plan keep the ledger.
use heritage_philippines_v.Prelude.{
  ℕ, true, false, none, List, [], ◌∷◌, ◌≡◌, refl, ap, ◌==◌, any, All, All-map, is_some, arith,
  ==_refl,
}
use heritage_philippines_v.Prelude.Int.{pos, ◌<ℤ◌}
use heritage_philippines_v.Payments.Model.{
  Installment, Payment, PaymentRefund, PaymentRefundAllocation, PaymentAllocation,
  PaymentAllocationReversal,
}
use heritage_philippines_v.Payments.Store.{sum_where}
use heritage_philippines_v.Payments.Repository.Plans.{
  ProposedInstallment, find_installment, installment_row, add_installments, ids_taken,
}
use heritage_philippines_v.Payments.Ledger.Sums.{net_of, sum_where_none}
use heritage_philippines_v.Payments.Ledger.Rows.{absent_ne}
use heritage_philippines_v.Payments.Ledger.Invariant.{IsLedger, InstallmentFits, of_installment}

any-find_none :
    (rows : List Installment) (id : ℕ)
    → any (λ (r : Installment). r.id == id) rows ≡ false
    → find_installment rows id ≡ none
unfolding find_installment
any-find_none [] id h = refl
any-find_none (r ∷ rows) id h = ground (arith, any-find_none rows id)

module _ {payments : List Payment} {refunds : List PaymentRefund}
    {linked : List PaymentRefundAllocation} {allocations : List PaymentAllocation}
    {reversals : List PaymentAllocationReversal} {installments : List Installment}
    (ledger : IsLedger payments refunds linked allocations reversals installments) (i : Installment)
    (fresh : find_installment installments i.id ≡ none) (positive : pos 0 <ℤ i.amount) where
  other_id : (q : ℕ) → is_some (find_installment installments q) ≡ true → (i.id == q) ≡ false
  unfolding find_installment
  other_id q h = absent_ne (λ (r : Installment). r.id) installments i.id q fresh h

  uncovered : sum_where (of_installment payments reversals i.id) (net_of linked) allocations ≡ pos 0
  uncovered = sum_where_none (of_installment payments reversals i.id) (net_of linked) allocations (
      All-map allocations
        (λ a fits.
          let ne : (a.installment_id == i.id) ≡ false =
            ground (arith, other_id a.installment_id fits.has_installment) in
          rw ne)
        ledger.allocation)

  new_installment :
      InstallmentFits payments refunds linked allocations reversals (i ∷ installments) i
  unfolding find_installment
  new_installment = record {
    unique = rw (==_refl i.id);
    positive = positive;
    covered = rw uncovered (omega (arith, positive));
  }

  old_installment :
      (x : Installment)
      → InstallmentFits payments refunds linked allocations reversals installments x
      → InstallmentFits payments refunds linked allocations reversals (i ∷ installments) x
  unfolding find_installment
  old_installment x fits = record {
    unique = rw (other_id x.id (ap is_some fits.unique)) fits.unique;
    positive = fits.positive;
    covered = fits.covered;
  }

  pub add_installment-IsLedger :
      IsLedger payments refunds linked allocations reversals (i ∷ installments)
  unfolding find_installment
  add_installment-IsLedger = record {
    payment =
        All-map payments
          (λ x fits. record {
            unique = fits.unique;
            positive = fits.positive;
            status = fits.status;
          })
          ledger.payment;
    refund =
        All-map refunds
          (λ x fits. record { positive = fits.positive; has_payment = fits.has_payment })
          ledger.refund;
    link =
        All-map linked
          (λ x fits. record { positive = fits.positive; has_allocation = fits.has_allocation })
          ledger.link;
    allocation =
        All-map allocations
          (λ a fits. record {
            unique = fits.unique;
            positive = fits.positive;
            within = fits.within;
            reversed_whole = fits.reversed_whole;
            has_payment = fits.has_payment;
            has_installment =
                rw (other_id a.installment_id fits.has_installment) fits.has_installment;
          })
          ledger.allocation;
    installment = (new_installment, All-map installments old_installment ledger.installment);
  }

abbrev pub PositiveAmounts : List ProposedInstallment → Type 0
PositiveAmounts = All (λ i. pos 0 <ℤ i.amount)

not_found :
    (plan_id : ℕ) (is : List ProposedInstallment) (rows : List Installment) (id : ℕ)
    → any (λ (r : Installment). r.id == id) rows ≡ false
    → any (λ (j : ProposedInstallment). j.id == id) is ≡ false
    → find_installment (add_installments plan_id is rows) id ≡ none
unfolding find_installment
not_found plan_id [] rows id h k = any-find_none rows id h
not_found plan_id (i ∷ is) rows id h k = ground (arith, not_found plan_id is rows id h)

module _ {payments : List Payment} {refunds : List PaymentRefund}
    {linked : List PaymentRefundAllocation} {allocations : List PaymentAllocation}
    {reversals : List PaymentAllocationReversal} {installments : List Installment}
    (ledger : IsLedger payments refunds linked allocations reversals installments)
    (plan_id : ℕ) where
  pub add_installments-IsLedger :
      (is : List ProposedInstallment)
      → ids_taken is installments ≡ false
      → PositiveAmounts is
      → IsLedger payments refunds linked allocations reversals
          (add_installments plan_id is installments)
  add_installments-IsLedger [] free positive = ledger
  add_installments-IsLedger (i ∷ is) free positive =
      add_installment-IsLedger (add_installments-IsLedger is (ground arith) positive.1)
        (installment_row plan_id i)
        (not_found plan_id is installments i.id (ground arith) (ground arith)) positive.0
