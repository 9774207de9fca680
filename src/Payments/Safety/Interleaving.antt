-- ===== src/Payments/Safety/Interleaving.antt =====
-- Any interleaving of calls: the requests that change the store, one call of the service for each,
-- and the stores that calls reach while the transactions of other calls commit between their
-- attempts.
use heritage_philippines_v.Prelude.{ℕ}
use heritage_philippines_v.Prelude.Int.{pos, ◌<ℤ◌}
use heritage_philippines_v.Transaction.{Schedule}
use heritage_philippines_v.Transaction.Laws.{Keeps}
use heritage_philippines_v.Payments.Model.{Text, AuthenticatedUser}
use heritage_philippines_v.Payments.Store.{Store, World}
use heritage_philippines_v.Payments.Service.Replay.{
  RecordPaymentInput, StatusInput, RefundPaymentInput, CreateAllocationInput,
  ReverseAllocationInput,
}
use heritage_philippines_v.Payments.Service.Financials.{
  SetBookingFinancialsInput, set_booking_financials,
}
use heritage_philippines_v.Payments.Service.Plans.{
  ProposePaymentPlanInput, propose_payment_plan, approve_payment_plan, withdraw_payment_plan,
}
use heritage_philippines_v.Payments.Service.Payments.{
  record_payment, confirm_payment, reverse_payment,
}
use heritage_philippines_v.Payments.Service.Refund.{refund_payment}
use heritage_philippines_v.Payments.Service.Receipt.{issue_receipt}
use heritage_philippines_v.Payments.Service.Allocations.{create_allocation, reverse_allocation}
use heritage_philippines_v.Payments.Ledger.Invariant.{LedgerFits}
use heritage_philippines_v.Payments.Safety.Status.{
  confirm_payment-LedgerFits, reverse_payment-LedgerFits,
}
use heritage_philippines_v.Payments.Safety.Record.{
  record_payment-LedgerFits, PositiveInputs, propose_payment_plan-LedgerFits,
}
use heritage_philippines_v.Payments.Safety.Allocation.{
  create_allocation-LedgerFits, reverse_allocation-LedgerFits,
}
use heritage_philippines_v.Payments.Safety.Refund.{refund_payment-LedgerFits}
use heritage_philippines_v.Payments.Safety.Frame.{
  set_booking_financials-LedgerFits, approve_payment_plan-LedgerFits,
  withdraw_payment_plan-LedgerFits, issue_receipt-LedgerFits,
}
use heritage_philippines_v.Payments.Safety.Calls.{
  Safe, call-Safe, rethrow_as-Safe, replay-Safe, as_actor-Safe, with_handler-Safe, run-Safe,
  if-Safe,
}

pub data Request : Type 0 where
  set_financials : SetBookingFinancialsInput → Request
  propose_plan : ProposePaymentPlanInput → Request
  approve_plan : ℕ → Request
  withdraw_plan : ℕ → Text → Request
  record_a_payment : RecordPaymentInput → Request
  confirm : StatusInput → Request
  reverse : StatusInput → Request
  refund : RefundPaymentInput → Request
  allocate : CreateAllocationInput → Request
  unallocate : ReverseAllocationInput → Request
  receipt : ℕ → Request

-- The store that the call of a request leaves.
unfoldable pub serve : World → Schedule Store → AuthenticatedUser → Request → Store → Store
serve w schedule actor (set_financials input) s =
    (set_booking_financials w schedule actor input s).1
serve w schedule actor (propose_plan input) s = (propose_payment_plan w schedule actor input s).1
serve w schedule actor (approve_plan id) s = (approve_payment_plan w schedule actor id s).1
serve w schedule actor (withdraw_plan id reason) s =
    (withdraw_payment_plan w schedule actor id reason s).1
serve w schedule actor (record_a_payment input) s = (record_payment w schedule actor input s).1
serve w schedule actor (confirm input) s = (confirm_payment w schedule actor input s).1
serve w schedule actor (reverse input) s = (reverse_payment w schedule actor input s).1
serve w schedule actor (refund input) s = (refund_payment w schedule actor input s).1
serve w schedule actor (allocate input) s = (create_allocation w schedule actor input s).1
serve w schedule actor (unallocate input) s = (reverse_allocation w schedule actor input s).1
serve w schedule actor (receipt id) s = (issue_receipt w schedule actor id s).1

-- `positiveMoneyAmountSchema` takes positive amounts only.
abbrev pub Validated : World → Request → Type 0
Validated w (propose_plan input) = PositiveInputs w input.installments
Validated w (record_a_payment input) = pos 0 <ℤ w.to_decimal input.amount
Validated w (refund input) = pos 0 <ℤ w.to_decimal input.amount
Validated w (allocate input) = pos 0 <ℤ w.to_decimal input.amount
Validated w (set_financials input) = Unit {0}
Validated w (approve_plan id) = Unit {0}
Validated w (withdraw_plan id reason) = Unit {0}
Validated w (confirm input) = Unit {0}
Validated w (reverse input) = Unit {0}
Validated w (unallocate input) = Unit {0}
Validated w (receipt id) = Unit {0}

module _ (w : World) (schedule : Schedule Store) (others : Keeps LedgerFits schedule)
    (actor : AuthenticatedUser) where
  propose-Safe :
      (input : ProposePaymentPlanInput)
      → PositiveInputs w input.installments
      → Safe LedgerFits (propose_payment_plan w schedule actor input)
  unfolding propose_payment_plan
  propose-Safe input positive = as_actor-Safe LedgerFits schedule _ _ (λ a.
      if-Safe LedgerFits schedule _ _ _ (λ s h. h)
        (with_handler-Safe LedgerFits schedule _ _
          (run-Safe LedgerFits schedule _ others
            (λ t k. propose_payment_plan-LedgerFits w a input t positive k))
          (λ e. if-Safe LedgerFits schedule _ _ _ (λ s h. h) (rethrow_as-Safe _ LedgerFits _ e))))

  serve-Safe :
      (request : Request)
      → Validated w request
      → (s : Store) → LedgerFits s
      → LedgerFits (serve w schedule actor request s)
  unfolding serve set_booking_financials approve_payment_plan withdraw_payment_plan record_payment
      confirm_payment reverse_payment refund_payment create_allocation reverse_allocation
      issue_receipt
  serve-Safe (set_financials input) valid =
      call-Safe LedgerFits schedule _ _ _ others
        (λ a s h. set_booking_financials-LedgerFits w a s h input)
        (λ a e. rethrow_as-Safe _ LedgerFits _ e)
  serve-Safe (propose_plan input) valid = propose-Safe input valid
  serve-Safe (approve_plan id) valid =
      call-Safe LedgerFits schedule _ _ _ others
        (λ a s h. approve_payment_plan-LedgerFits w a s h id)
        (λ a e. rethrow_as-Safe _ LedgerFits _ e)
  serve-Safe (withdraw_plan id reason) valid =
      call-Safe LedgerFits schedule _ _ _ others
        (λ a s h. withdraw_payment_plan-LedgerFits w a s h id reason)
        (λ a e. rethrow_as-Safe _ LedgerFits _ e)
  serve-Safe (record_a_payment input) valid =
      call-Safe LedgerFits schedule _ _ _ others
        (λ a s h. record_payment-LedgerFits w a input s valid h)
        (λ a e. replay-Safe LedgerFits schedule _ _ _ e others)
  serve-Safe (confirm input) valid =
      call-Safe LedgerFits schedule _ _ _ others (λ a s h. confirm_payment-LedgerFits w a input s h)
        (λ a e. replay-Safe LedgerFits schedule _ _ _ e others)
  serve-Safe (reverse input) valid =
      call-Safe LedgerFits schedule _ _ _ others (λ a s h. reverse_payment-LedgerFits w a input s h)
        (λ a e. replay-Safe LedgerFits schedule _ _ _ e others)
  serve-Safe (refund input) valid =
      call-Safe LedgerFits schedule _ _ _ others
        (λ a s h. refund_payment-LedgerFits w a input s valid h)
        (λ a e. replay-Safe LedgerFits schedule _ _ _ e others)
  serve-Safe (allocate input) valid =
      call-Safe LedgerFits schedule _ _ _ others
        (λ a s h. create_allocation-LedgerFits w a input s valid h)
        (λ a e. replay-Safe LedgerFits schedule _ _ _ e others)
  serve-Safe (unallocate input) valid =
      call-Safe LedgerFits schedule _ _ _ others
        (λ a s h. reverse_allocation-LedgerFits w a input s h)
        (λ a e. replay-Safe LedgerFits schedule _ _ _ e others)
  serve-Safe (receipt id) valid =
      call-Safe LedgerFits schedule _ _ _ others (λ a s h. issue_receipt-LedgerFits w a s h id)
        (λ a e. replay-Safe LedgerFits schedule _ _ _ e others)

-- The stores that calls reach from the store `s`. What other transactions commit before an attempt
-- of a call, or before its last read, is itself the work of such calls.
pub data Reaches : Store → Store → Type 0 where
  stay : {s : Store} → Reaches s s
  after_call :
      {s t : Store} (w : World) (schedule : Schedule Store) (actor : AuthenticatedUser)
      (request : Request)
      → Reaches s t
      → ((n : ℕ) (u : Store) → Reaches u ((schedule.attempt n).others u))
      → ((u : Store) → Reaches u (schedule.settled u))
      → Validated w request
      → Reaches s (serve w schedule actor request t)

-- Whatever calls reach from a store whose ledger fits has a ledger that fits.
pub Reaches-LedgerFits : {s t : Store} → Reaches s t → LedgerFits s → LedgerFits t
Reaches-LedgerFits stay h = h
Reaches-LedgerFits (after_call {t} w schedule actor request before others settled valid) h =
    serve-Safe w schedule
      (record {
        before = λ n u k. Reaches-LedgerFits (others n u) k;
        after = λ u k. Reaches-LedgerFits (settled u) k;
      })
      actor request valid t (Reaches-LedgerFits before h)
