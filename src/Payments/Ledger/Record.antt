-- ===== src/Payments/Ledger/Record.antt =====
-- A new pending payment keeps the ledger.
use heritage_philippines_v.Prelude.{
  ℕ, Bool, true, false, none, List, [], ◌∷◌, ◌≡◌, refl, sym, ap, ◌∙◌, ◌==◌, any, All, All-map,
  is_some, arith, ==_refl,
}
use heritage_philippines_v.Prelude.Int.{pos, ◌<ℤ◌}
use heritage_philippines_v.Payments.Model.{
  Installment, Payment, PaymentStatus, PaymentRefund, PaymentRefundAllocation, PaymentAllocation,
  PaymentAllocationReversal,
}
use heritage_philippines_v.Payments.Repository.Payments.{find_payment}
use heritage_philippines_v.Payments.Repository.Refunds.{sum_refunds_for_payment}
use heritage_philippines_v.Payments.Repository.Allocations.{payment_counts, counts_found}
use heritage_philippines_v.Payments.Ledger.Sums.{sum_where_none}
use heritage_philippines_v.Payments.Ledger.Rows.{absent_ne}
use heritage_philippines_v.Payments.Ledger.Coverage.{net_nonneg, covered_le}
use heritage_philippines_v.Payments.Ledger.Invariant.{IsLedger, PaymentFits, is_allocated}

pub any_none :
    {A : Type 0} (p : A → Bool) (xs : List A) → All (λ x. p x ≡ false) xs → any p xs ≡ false
any_none p [] h = refl
any_none p (x ∷ xs) h = rw (h.0) (any_none p xs h.1)

module _ {payments : List Payment} {refunds : List PaymentRefund}
    {linked : List PaymentRefundAllocation} {allocations : List PaymentAllocation}
    {reversals : List PaymentAllocationReversal} {installments : List Installment}
    (ledger : IsLedger payments refunds linked allocations reversals installments) (p : Payment)
    (fresh : find_payment payments p.id ≡ none) (pending : p.status ≡ PaymentStatus.pending)
    (positive : pos 0 <ℤ p.amount) where
  other_id : (q : ℕ) → is_some (find_payment payments q) ≡ true → (p.id == q) ≡ false
  unfolding find_payment
  other_id q h = absent_ne (λ (r : Payment). r.id) payments p.id q fresh h

  still_found :
      (q : ℕ)
      → is_some (find_payment payments q) ≡ true
      → find_payment (p ∷ payments) q ≡ find_payment payments q
  unfolding find_payment
  still_found q h = rw (other_id q h)

  no_refunds : sum_refunds_for_payment refunds p.id ≡ pos 0
  unfolding sum_refunds_for_payment
  no_refunds =
      sum_where_none (λ r. r.payment_id == p.id) (λ r. r.amount) refunds
        (All-map refunds (λ r fits. ground (arith, other_id r.payment_id fits.has_payment))
          ledger.refund)

  not_allocated : is_allocated allocations p.id ≡ false
  not_allocated =
      any_none (λ (a : PaymentAllocation). a.payment_id == p.id) allocations
        (All-map allocations (λ a fits. ground (arith, other_id a.payment_id fits.has_payment))
          ledger.allocation)

  new_row : PaymentFits (p ∷ payments) refunds linked allocations reversals installments p
  unfolding find_payment
  new_row = record {
    unique = rw (==_refl p.id);
    positive = positive;
    status = rw pending (no_refunds, not_allocated);
  }

  old_row :
      (x : Payment)
      → PaymentFits payments refunds linked allocations reversals installments x
      → PaymentFits (p ∷ payments) refunds linked allocations reversals installments x
  old_row x fits = record {
    unique = rw (still_found x.id (ground (arith, fits.unique))) fits.unique;
    positive = fits.positive;
    status = fits.status;
  }

  counted_before :
      (a : PaymentAllocation)
      → is_some (find_payment payments a.payment_id) ≡ true
      → payment_counts (p ∷ payments) a.payment_id ≡ true
      → payment_counts payments a.payment_id ≡ true
  unfolding payment_counts
  counted_before a h e = sym (ap counts_found (still_found a.payment_id h)) ∙ e

  pub add_payment-IsLedger :
      IsLedger (p ∷ payments) refunds linked allocations reversals installments
  add_payment-IsLedger = record {
    payment = (new_row, All-map payments old_row ledger.payment);
    refund =
        All-map refunds
          (λ r fits. record {
            positive = fits.positive;
            has_payment = rw (still_found r.payment_id fits.has_payment) fits.has_payment;
          })
          ledger.refund;
    link =
        All-map linked
          (λ r fits. record { positive = fits.positive; has_allocation = fits.has_allocation })
          ledger.link;
    allocation =
        All-map allocations
          (λ a fits. record {
            unique = fits.unique;
            positive = fits.positive;
            within = fits.within;
            reversed_whole = fits.reversed_whole;
            has_payment = rw (still_found a.payment_id fits.has_payment) fits.has_payment;
            has_installment = fits.has_installment;
          })
          ledger.allocation;
    installment =
        All-map installments
          (λ i fits. record {
            unique = fits.unique;
            positive = fits.positive;
            covered = omega (
              arith,
              covered_le payments (p ∷ payments) linked reversals i.id allocations (
                  All-map allocations
                    (λ a row. (net_nonneg a row, counted_before a row.has_payment))
                    ledger.allocation),
              fits.covered,
            );
          })
          ledger.installment;
  }
