-- ===== src/Payments/Ledger/Transitions.antt =====
-- A confirmation and a reversal keep the ledger.
use heritage_philippines_v.Prelude.{
  ℕ, true, false, some, List, ◌≡◌, refl, sym, ap, subst, ◌∙◌, ◌==◌, All-map, All-find, arith, ==→eq,
  some_eq,
}
use heritage_philippines_v.Prelude.Int.{pos, ◌≤ℤ◌, int_laws}
use heritage_philippines_v.Payments.Model.{
  Installment, Payment, PaymentStatus, PaymentRefund, PaymentRefundAllocation, PaymentAllocation,
  PaymentAllocationReversal,
}
use heritage_philippines_v.Payments.Store.{sum_where}
use heritage_philippines_v.Payments.Repository.Payments.{find_payment, set_status}
use heritage_philippines_v.Payments.Repository.Refunds.{sum_refunds_for_payment}
use heritage_philippines_v.Payments.Ledger.Sums.{net_of, sum_where_none}
use heritage_philippines_v.Payments.Ledger.Rows.{
  payment_counts-set_status_ne, payment_counts-set_status_le,
}
use heritage_philippines_v.Payments.Ledger.Invariant.{
  IsLedger, PaymentFits, StatusFits, of_payment, is_allocated,
}
use heritage_philippines_v.Payments.Ledger.SetStatus.{any-false, set_status-IsLedger}

module _ {payments : List Payment} {refunds : List PaymentRefund}
    {linked : List PaymentRefundAllocation} {allocations : List PaymentAllocation}
    {reversals : List PaymentAllocationReversal} {installments : List Installment}
    (ledger : IsLedger payments refunds linked allocations reversals installments) (id : ℕ)
    (p : Payment) (found : find_payment payments id ≡ some p) where
  abbrev Fits : Payment → Type 0
  Fits = PaymentFits payments refunds linked allocations reversals installments

  pub found_row : Fits p × ((p.id == id) ≡ true)
  unfolding find_payment
  found_row = All-find Fits (λ r. r.id == id) payments p ledger.payment found

  -- The payment of an id is the one that is found.
  pub only_row : (x : Payment) → Fits x → (x.id == id) ≡ true → x ≡ p
  only_row x fits same =
      some_eq (sym fits.unique ∙ ap (find_payment payments) (==→eq x.id id same) ∙ found)

  none_active :
      is_allocated allocations p.id ≡ false
      → sum_where (of_payment reversals p.id) (net_of linked) allocations ≡ pos 0
  none_active free = sum_where_none (of_payment reversals p.id) (net_of linked) allocations (
      All-map allocations (λ a e. rw e)
        (any-false (λ (a : PaymentAllocation). a.payment_id == p.id) allocations free))

  pending_free :
      p.status ≡ PaymentStatus.pending
      → (sum_refunds_for_payment refunds p.id ≡ pos 0) × (is_allocated allocations p.id ≡ false)
  pending_free e =
      subst
        (λ (status : PaymentStatus).
          StatusFits status p.amount (sum_refunds_for_payment refunds p.id)
            (sum_where (of_payment reversals p.id) (net_of linked) allocations)
            (is_allocated allocations p.id))
        e found_row.0.status

  pub confirm-IsLedger :
      p.status ≡ PaymentStatus.pending
      → IsLedger
          (set_status id PaymentStatus.confirmed payments)
          refunds
          linked
          allocations
          reversals
          installments
  confirm-IsLedger pending =
      set_status-IsLedger ledger id PaymentStatus.confirmed
        (All-map allocations
          (λ a other e.
            sym (
              payment_counts-set_status_ne id PaymentStatus.confirmed payments a.payment_id
                (rw (==→eq p.id id found_row.1) at other))
            ∙ e)
          (any-false (λ (a : PaymentAllocation). a.payment_id == p.id) allocations
            (pending_free pending).1))
        (λ x fits same. rw (only_row x fits same) (
          rw ((pending_free pending).0, none_active (pending_free pending).1)
            (omega arith, found_row.0.positive, omega (int_laws, found_row.0.positive))))

  confirmed_fits :
      p.status ≡ PaymentStatus.confirmed
      → StatusFits PaymentStatus.confirmed p.amount
          (sum_refunds_for_payment refunds p.id)
          (sum_where (of_payment reversals p.id) (net_of linked) allocations)
          (is_allocated allocations p.id)
  confirmed_fits e =
      subst
        (λ (status : PaymentStatus).
          StatusFits status p.amount (sum_refunds_for_payment refunds p.id)
            (sum_where (of_payment reversals p.id) (net_of linked) allocations)
            (is_allocated allocations p.id))
        e found_row.0.status

  pub reverse-IsLedger :
      p.status ≡ PaymentStatus.confirmed
      → sum_refunds_for_payment refunds p.id ≤ℤ pos 0
      → IsLedger
          (set_status id PaymentStatus.reversed payments)
          refunds
          linked
          allocations
          reversals
          installments
  reverse-IsLedger confirmed unrefunded =
      set_status-IsLedger ledger id PaymentStatus.reversed
        (All-map allocations
          (λ a fits e.
            payment_counts-set_status_le id PaymentStatus.reversed payments a.payment_id refl e)
          ledger.allocation)
        (λ x fits same.
          rw (only_row x fits same) (omega (int_laws, (confirmed_fits confirmed).0, unrefunded)))
