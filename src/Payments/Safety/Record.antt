-- ===== src/Payments/Safety/Record.antt =====
-- `recordPayment` and `proposePaymentPlan` keep the ledger; an operation that writes none of its
-- tables keeps it too.
use heritage_philippines_v.Prelude.{ℕ, List, [], ◌∷◌, refl, sym, subst, ◌+◌, All}
use heritage_philippines_v.Prelude.Int.{pos, ◌<ℤ◌}
use heritage_philippines_v.Transaction.Rules.{
  Ensures, Ensures-pure, Ensures-or_else, bind_gets, bind_same, bind-Ensures, bind_or_throw,
  then_same, then_require,
}
use heritage_philippines_v.Payments.Model.{Text, Booking}
use heritage_philippines_v.Payments.Store.{Store, World}
use heritage_philippines_v.Payments.Repository.Bookings.{PaymentActor}
use heritage_philippines_v.Payments.Repository.Writes.{
  create_pending_payment-Ensures, create_payment_plan-Ensures, then_audit,
}
use heritage_philippines_v.Payments.Service.Reads.{
  Reads, assert_open-Reads, assert_precision-Reads, resolve_record-Reads,
}
use heritage_philippines_v.Payments.Service.Replay.{RecordPaymentInput}
use heritage_philippines_v.Payments.Service.Payments.{record_new_payment, record_payment_tx}
use heritage_philippines_v.Payments.Service.Plans.{
  InstallmentInput, ProposePaymentPlanInput, proposed_rows, assert_all_precision,
  propose_payment_plan_tx,
}
use heritage_philippines_v.Payments.Ledger.Invariant.{LedgerFits}
use heritage_philippines_v.Payments.Ledger.Record.{add_payment-IsLedger}
use heritage_philippines_v.Payments.Ledger.Installments.{PositiveAmounts, add_installments-IsLedger}

-- The amounts of the proposed installments, as the schema of the request has them.
abbrev pub PositiveInputs : World → List InstallmentInput → Type 0
PositiveInputs w = All (λ i. pos 0 <ℤ w.to_decimal i.amount)

module _ (w : World) (actor : PaymentActor) where
  record_new-LedgerFits :
      (input : RecordPaymentInput) (booking : Booking) (s : Store)
      → pos 0 <ℤ w.to_decimal input.amount
      → LedgerFits s
      → Ensures (λ a t. LedgerFits t) (record_new_payment w actor input booking s)
  unfolding record_new_payment
  record_new-LedgerFits input booking s positive ledger =
      then_same _ _ _ _ s (assert_open-Reads _ s) (λ payable. bind_or_throw _ _ _ _ s (λ currency e.
        then_same _ _ _ _ s (assert_precision-Reads input.amount currency s) (λ precise.
          bind-Ensures _ _ _ _ s (create_pending_payment-Ensures s _) (λ p t new.
            then_audit _ _ _ t (
              Ensures-pure _ _ _ (
                subst (λ (u : Store). LedgerFits u) (sym new.2)
                  (add_payment-IsLedger ledger _ new.1 refl positive)))))))

  -- The body of `recordPayment` keeps the ledger.
  pub record_payment-LedgerFits :
      (input : RecordPaymentInput) (s : Store)
      → pos 0 <ℤ w.to_decimal input.amount
      → LedgerFits s
      → Ensures (λ a t. LedgerFits t) (record_payment_tx w actor input s)
  unfolding record_payment_tx
  record_payment-LedgerFits input s positive ledger = bind_gets _ _ _ s (
      bind_or_throw _ _ _ _ s (λ booking e.
        bind_same _ _ _ _ s (resolve_record-Reads actor s w input) (λ replay u.
          Ensures-or_else _ replay _ s (λ a e. ledger)
            (λ e. record_new-LedgerFits input booking s positive ledger))))

  proposed_rows-PositiveAmounts :
      (n : ℕ) (is : List InstallmentInput)
      → PositiveInputs w is
      → PositiveAmounts (proposed_rows w n is)
  proposed_rows-PositiveAmounts n [] h = tt
  proposed_rows-PositiveAmounts n (i ∷ is) h = (h.0, proposed_rows-PositiveAmounts (n + 1) is h.1)

  assert_all-Reads :
      (is : List InstallmentInput) (currency : Text) (s : Store)
      → Reads (λ a. Unit {0}) (assert_all_precision is currency) s
  unfolding assert_all_precision
  assert_all-Reads [] currency s = Ensures-pure _ _ _ (refl, tt)
  assert_all-Reads (i ∷ is) currency s =
      then_same _ _ _ _ s (assert_precision-Reads i.amount currency s)
        (λ precise. assert_all-Reads is currency s)

  -- The body of `proposePaymentPlan` keeps the ledger.
  pub propose_payment_plan-LedgerFits :
      (input : ProposePaymentPlanInput) (s : Store)
      → PositiveInputs w input.installments
      → LedgerFits s
      → Ensures (λ a t. LedgerFits t) (propose_payment_plan_tx w actor input s)
  unfolding propose_payment_plan_tx
  propose_payment_plan-LedgerFits input s positive ledger = bind_gets _ _ _ s (
      bind_or_throw _ _ _ _ s (λ booking e. then_same _ _ _ _ s (assert_open-Reads _ s) (λ payable.
        bind_or_throw _ _ _ _ s (λ total e. bind_or_throw _ _ _ _ s (λ currency e.
          then_same _ _ _ _ s (assert_all-Reads input.installments currency s) (λ precise.
            bind_gets _ _ _ s (
              then_require _ _ _ _ s (λ unplanned.
                bind-Ensures _ _ _ _ s (create_payment_plan-Ensures s _) (λ p t new.
                  then_audit _ _ _ t (
                    Ensures-pure _ _ _ (
                      subst (λ (u : Store). LedgerFits u) (sym new.2)
                        (add_installments-IsLedger ledger _ _ new.1
                          (proposed_rows-PositiveAmounts 2 _ positive)))))))))))))
