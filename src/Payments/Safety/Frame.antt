-- ===== src/Payments/Safety/Frame.antt =====
-- The operations that write no table of the ledger: `setBookingFinancials`, `approvePaymentPlan`,
-- `withdrawPaymentPlan` and `issueReceipt`.
use heritage_philippines_v.Prelude.{
  ℕ, Bool, true, false, sym, subst, ◌==◌, ◌&&◌, any, inl, inr, Bool-cases, Option-cases,
  if◌then◌else◌,
}
use heritage_philippines_v.Transaction.{pure}
use heritage_philippines_v.Transaction.Rules.{
  Ensures, Ensures-ok, Ensures-err, Ensures-pure, Ensures-or_else, bind_gets, bind_same,
  bind-Ensures, bind_or_throw, then_same, then_require,
}
use heritage_philippines_v.Payments.Model.{Decimal, Text, PaymentPlan, Payment}
use heritage_philippines_v.Payments.Store.{Store, World, PaymentTx}
use heritage_philippines_v.Payments.Repository.Bookings.{
  PaymentActor, find_booking, is_withdrawn, update_booking_financials,
}
use heritage_philippines_v.Payments.Repository.Plans.{
  is_proposed, update_proposed_plan, approve_payment_plan_row, withdraw_payment_plan_row,
}
use heritage_philippines_v.Payments.Repository.Writes.{create_receipt-Ensures, then_audit}
use heritage_philippines_v.Payments.Service.Reads.{
  find_scoped-Reads, assert_open-Reads, assert_precision-Reads,
}
use heritage_philippines_v.Payments.Service.Financials.{
  SetBookingFinancialsInput, is_unchanged, set_booking_financials_tx,
}
use heritage_philippines_v.Payments.Service.Plans.{
  is_approved, approve_payment_plan_tx, withdraw_payment_plan_tx,
}
use heritage_philippines_v.Payments.Service.Receipt.{issue_new_receipt, issue_receipt_tx}
use heritage_philippines_v.Payments.Ledger.Invariant.{LedgerFits}

-- An early return, and the rest of the body.
Ensures-if :
    {A : Type 0} (Q : A → Store → Type 0) (b : Bool) (a : A) (m : PaymentTx A) (s : Store)
    → Q a s
    → Ensures Q (m s)
    → Ensures Q ((if b then pure a else m) s)
Ensures-if Q true a m s h k = Ensures-pure Q a s h
Ensures-if Q false a m s h k = k

update_booking-LedgerFits :
    (id : ℕ) (total : Decimal) (code : Text) (s : Store)
    → LedgerFits s
    → Ensures (λ a t. LedgerFits t) (update_booking_financials id total code s)
unfolding update_booking_financials
update_booking-LedgerFits id total code s ledger =
    elim (Option-cases (find_booking s.bookings id)) [
      | inl absent ↦ rw (absent, update_booking_financials) (Ensures-err _ _)
      | inr (b, found) ↦ rw (found, update_booking_financials) (Ensures-ok _ _ _ ledger)
    ]

update_plan-LedgerFits :
    (id : ℕ) (change : PaymentPlan → PaymentPlan) (s : Store)
    → LedgerFits s
    → Ensures (λ a t. LedgerFits t) (update_proposed_plan id change s)
unfolding update_proposed_plan
update_plan-LedgerFits id change s ledger =
    elim (Bool-cases (any (λ (p : PaymentPlan). p.id == id && is_proposed p.status) s.plans)) [
      | inl some_row ↦ rw (some_row, update_proposed_plan) (Ensures-pure _ _ _ ledger)
      | inr no_row ↦ rw (no_row, update_proposed_plan) (Ensures-pure _ _ _ ledger)
    ]

module _ (w : World) (actor : PaymentActor) (s : Store) (ledger : LedgerFits s) where
  -- The body of `setBookingFinancials` keeps the ledger.
  pub set_booking_financials-LedgerFits :
      (input : SetBookingFinancialsInput)
      → Ensures (λ a t. LedgerFits t) (set_booking_financials_tx w actor input s)
  unfolding set_booking_financials_tx
  set_booking_financials-LedgerFits input = bind_gets _ _ _ s (
      bind_or_throw _ _ _ _ s (λ booking found.
        then_same _ _ _ _ s (assert_open-Reads _ s) (λ payable.
          then_same _ _ _ _ s (assert_precision-Reads _ _ s) (λ precise. bind_gets _ _ _ s (
            then_require _ _ _ _ s (λ unlocked.
              Ensures-if _ (is_unchanged w booking input) booking _ s ledger (
                then_require _ _ _ _ s (λ reason.
                  bind-Ensures _ _ _ _ s (update_booking-LedgerFits _ _ _ s ledger)
                    (λ b t kept. then_audit _ _ _ t (Ensures-pure _ _ _ kept))))))))))

  -- The body of `approvePaymentPlan` keeps the ledger.
  pub approve_payment_plan-LedgerFits :
      (payment_plan_id : ℕ)
      → Ensures (λ a t. LedgerFits t) (approve_payment_plan_tx w actor payment_plan_id s)
  unfolding approve_payment_plan_tx approve_payment_plan_row
  approve_payment_plan-LedgerFits payment_plan_id = bind_gets _ _ _ s (
      bind_or_throw _ _ _ _ s (λ row found.
        Ensures-if _ (is_approved row.0.status) row.0 _ s ledger (
          then_same _ _ _ _ s (assert_open-Reads _ s) (λ payable.
            then_require _ _ _ _ s (λ proposed. bind_or_throw _ _ _ _ s (λ total e.
              bind_gets _ _ _ s (
                then_require _ _ _ _ s (λ sums.
                  bind-Ensures _ _ _ _ s (update_plan-LedgerFits _ _ s ledger) (λ written t kept.
                    bind_or_throw _ _ _ _ t
                      (λ updated e. then_audit _ _ _ t (Ensures-pure _ _ _ kept)))))))))))

  -- The body of `withdrawPaymentPlan` keeps the ledger.
  pub withdraw_payment_plan-LedgerFits :
      (payment_plan_id : ℕ) (reason : Text)
      → Ensures (λ a t. LedgerFits t) (withdraw_payment_plan_tx w actor payment_plan_id reason s)
  unfolding withdraw_payment_plan_tx withdraw_payment_plan_row
  withdraw_payment_plan-LedgerFits payment_plan_id reason = bind_gets _ _ _ s (
      bind_or_throw _ _ _ _ s (λ row found.
        Ensures-if _ (is_withdrawn row.0.status) row.0 _ s ledger (
          then_require _ _ _ _ s (λ proposed. bind_gets _ _ _ s (
            then_require _ _ _ _ s (λ unallocated. bind_gets _ _ _ s (
              bind-Ensures _ _ _ _ s (update_plan-LedgerFits _ _ s ledger) (λ written t kept.
                bind_or_throw _ _ _ _ t
                  (λ updated e. then_audit _ _ _ t (Ensures-pure _ _ _ kept))))))))))

  issue_new-LedgerFits :
      (p : Payment) → Ensures (λ a t. LedgerFits t) (issue_new_receipt w actor p s)
  unfolding issue_new_receipt
  issue_new-LedgerFits p = then_require _ _ _ _ s (λ confirmed. bind_gets _ _ _ s (
      bind_or_throw _ _ _ _ s (λ currency e.
        bind-Ensures _ _ _ _ s (create_receipt-Ensures s _) (λ r t new.
          then_audit _ _ _ t
            (Ensures-pure _ _ _ (subst (λ (u : Store). LedgerFits u) (sym new.1) ledger))))))

  -- The body of `issueReceipt` keeps the ledger.
  pub issue_receipt-LedgerFits :
      (payment_id : ℕ) → Ensures (λ a t. LedgerFits t) (issue_receipt_tx w actor payment_id s)
  unfolding issue_receipt_tx
  issue_receipt-LedgerFits payment_id =
      bind_same _ _ _ _ s (find_scoped-Reads actor payment_id s) (λ p found.
        bind_gets _ _ _ s (Ensures-or_else _ _ _ s (λ a e. ledger) (λ e. issue_new-LedgerFits p)))
