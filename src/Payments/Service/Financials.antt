-- ===== src/Payments/Service/Financials.antt =====
-- Payments service: `setBookingFinancials`.
use heritage_philippines_v.Prelude.{
  ℕ, Bool, true, false, Option, none, some, [], ◌∷◌, ◌&&◌, ◌||◌, not, is_some, if◌then◌else◌,
}
use heritage_philippines_v.Prelude.Int.{eqb_ℤ}
use heritage_philippines_v.Transaction.{
  Action, Schedule, pure, gets, require, or_throw, ◌>>=◌, ◌>>◌, run_serializable_with_retry,
  with_handler,
}
use heritage_philippines_v.Payments.Model.{
  Decimal, Text, AuthenticatedUser, PaymentErrorCode, booking_forbidden, booking_financials_locked,
  payment_conflict, Booking,
}
use heritage_philippines_v.Payments.Audit.{AuditEntity, AuditSnapshot, AuditAction}
use heritage_philippines_v.Payments.Currencies.{text_eq, trim, currency_list_version}
use heritage_philippines_v.Payments.Store.{Store, World, PaymentTx}
use heritage_philippines_v.Payments.Repository.Bookings.{
  PaymentActor, find_booking_financials_for_actor, has_financial_lock, update_booking_financials,
}
use heritage_philippines_v.Payments.Repository.Payments.{insert_audit_log}
use heritage_philippines_v.Payments.Service.Actors.{
  assert_finance_actor, as_actor, assert_booking_open_for_payment, assert_amount_precision,
  rethrow_as,
}

pub record SetBookingFinancialsInput : Type 0 where
  pub booking_id : ℕ
  pub total_amount : Text
  pub currency_code : Text
  pub reason : Option Text

abbrev has_currency : Text → Option Text → Bool
has_currency code none = false
has_currency code (some c) = text_eq c code

abbrev has_total : Decimal → Option Decimal → Bool
has_total total none = false
has_total total (some t) = eqb_ℤ t total

unfoldable pub is_unchanged : World → Booking → SetBookingFinancialsInput → Bool
is_unchanged w before input =
    has_currency input.currency_code before.currency_code
    && has_total (w.to_decimal input.total_amount) before.total_amount

abbrev is_empty : Text → Bool
is_empty [] = true
is_empty (c ∷ s) = false

-- `input.reason?.trim()` is not empty.
unfoldable pub has_reason : Option Text → Bool
has_reason none = false
has_reason (some reason) = not (is_empty (trim reason))

abbrev trimmed_if : Bool → Option Text → Option Text
trimmed_if false reason = none
trimmed_if true none = none
trimmed_if true (some reason) = some (trim reason)

abbrev fixed : World → Option Decimal → Option Text
fixed w none = none
fixed w (some d) = some (w.to_fixed d)

unfoldable pub set_booking_financials_tx :
    World → PaymentActor → SetBookingFinancialsInput → PaymentTx Booking
set_booking_financials_tx w actor input = do
  found ← gets (find_booking_financials_for_actor actor input.booking_id)
  before ← or_throw found booking_forbidden
  assert_booking_open_for_payment (some before.status)
  assert_amount_precision input.total_amount input.currency_code
  locked ← gets (has_financial_lock input.booking_id)
  require (not locked) booking_financials_locked
  if is_unchanged w before input then pure before else (do
    require (not (is_some before.total_amount) || has_reason input.reason) payment_conflict
    updated ←
        update_booking_financials input.booking_id (w.to_decimal input.total_amount)
          input.currency_code
    insert_audit_log (record {
      id = w.random_uuid 0;
      actor_id = actor.id;
      action =
          if is_some before.total_amount
          then AuditAction.booking_financials_changed
          else AuditAction.booking_financials_set;
      entity_type = AuditEntity.booking;
      entity_id = input.booking_id;
      before_state =
          some (AuditSnapshot.financials_before (fixed w before.total_amount) before.currency_code);
      after_state = some (
          AuditSnapshot.financials_after (w.to_fixed (w.to_decimal input.total_amount))
            input.currency_code currency_list_version
            (trimmed_if (is_some before.total_amount) input.reason));
    })
    pure updated)

unfoldable pub set_booking_financials :
    World
    → Schedule Store
    → AuthenticatedUser
    → SetBookingFinancialsInput
    → Action Store PaymentErrorCode Booking
set_booking_financials w schedule actor input = as_actor (assert_finance_actor actor) λ a.
    with_handler (run_serializable_with_retry schedule (set_booking_financials_tx w a input))
      (rethrow_as payment_conflict)
