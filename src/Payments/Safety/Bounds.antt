-- ===== src/Payments/Safety/Bounds.antt =====
-- What the ledger means for the money: bounds on refunds and allocations that hold of every store
-- that calls reach.
use heritage_philippines_v.Prelude.{Bool, true, ◌≡◌, All, All-map, arith, true-false}
use heritage_philippines_v.Prelude.Int.{pos, ◌+ℤ◌, ◌≤ℤ◌, ◌<ℤ◌, int_laws}
use heritage_philippines_v.Payments.Model.{Decimal, Payment, PaymentStatus, Installment}
use heritage_philippines_v.Payments.Calculations.{counts}
use heritage_philippines_v.Payments.Store.{Store}
use heritage_philippines_v.Payments.Repository.Refunds.{sum_refunds_for_payment}
use heritage_philippines_v.Payments.Repository.Allocations.{
  sum_net_active_allocations_for_payment, sum_net_active_allocations_for_installment,
}
use heritage_philippines_v.Payments.Ledger.Invariant.{LedgerFits, StatusFits}
use heritage_philippines_v.Payments.Safety.Allocation.{payment_active, installment_active}
use heritage_philippines_v.Payments.Safety.Interleaving.{Reaches, Reaches-LedgerFits}

refunds_within :
    (status : PaymentStatus) (amount refunded active : Decimal) (allocated : Bool)
    → pos 0 <ℤ amount
    → StatusFits status amount refunded active allocated
    → (refunded ≤ℤ amount) × (counts status ≡ true → active +ℤ refunded ≤ℤ amount)
refunds_within PaymentStatus.confirmed amount refunded active allocated p (a, b, c) =
    (omega (arith, b), λ h. c)
refunds_within PaymentStatus.refunded amount refunded active allocated p (a, b) =
    rw a (omega arith, λ h. omega (int_laws, b))
refunds_within PaymentStatus.reversed amount refunded active allocated p a =
    rw a (omega (arith, p), λ h. absurd (true-false h))
refunds_within PaymentStatus.pending amount refunded active allocated p (a, b) =
    rw a (omega (arith, p), λ h. absurd (true-false h))
refunds_within PaymentStatus.rejected amount refunded active allocated p (a, b) =
    rw a (omega (arith, p), λ h. absurd (true-false h))
refunds_within PaymentStatus.cancelled amount refunded active allocated p (a, b) =
    rw a (omega (arith, p), λ h. absurd (true-false h))
refunds_within PaymentStatus.failed amount refunded active allocated p (a, b) =
    rw a (omega (arith, p), λ h. absurd (true-false h))

module _ {s t : Store} (reached : Reaches s t) (ledger : LedgerFits s) where
  -- In every store that calls reach from a store whose ledger fits, the refunds of each payment come
  -- to its amount at most.
  pub Reaches-refunds :
      All (λ (p : Payment). sum_refunds_for_payment t.refunds p.id ≤ℤ p.amount) t.payments
  Reaches-refunds =
      All-map t.payments (λ p fits. (refunds_within p.status _ _ _ _ fits.positive fits.status).0)
        (Reaches-LedgerFits reached ledger).payment

  -- In every store that calls reach from a store whose ledger fits, what a confirmed or refunded
  -- payment still allocates and its refunds together come to its amount at most.
  pub Reaches-allocations :
      All
        (λ (p : Payment).
          counts p.status ≡ true
          → sum_net_active_allocations_for_payment p.id t +ℤ sum_refunds_for_payment t.refunds p.id
            ≤ℤ p.amount)
        t.payments
  Reaches-allocations =
      All-map t.payments
        (λ p fits h.
          rw (payment_active p.id t)
            ((refunds_within p.status _ _ _ _ fits.positive fits.status).1 h))
        (Reaches-LedgerFits reached ledger).payment

  -- In every store that calls reach from a store whose ledger fits, no installment is covered beyond
  -- its amount.
  pub Reaches-coverage :
      All
        (λ (i : Installment). sum_net_active_allocations_for_installment i.id t ≤ℤ i.amount)
        t.installments
  Reaches-coverage =
      All-map t.installments (λ i fits. rw (installment_active i.id t) fits.covered)
        (Reaches-LedgerFits reached ledger).installment
