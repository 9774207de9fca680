-- ===== src/Payments/Tests.antt =====
-- A small shop on which the theorems of the payments feature are applied: one booking, its finance
-- clerk and its consultant, a payment that is recorded, confirmed and refunded in part, and one that is
-- allocated to an installment.
use heritage_philippines_v.Prelude.{
  ℕ, ◌+◌, ◌*◌, ◌-◌, true, none, some, [], ◌∷◌, ◌≡◌, refl, All, ◌==◌, arith, if◌then◌else◌,
}
use heritage_philippines_v.Prelude.Int.{eqb_ℤ, pos, ◌+ℤ◌, ◌≤ℤ◌}
use heritage_philippines_v.Transaction.{Schedule, Attempt, committed, ok, err, domain}
use heritage_philippines_v.Payments.Model.{
  idempotency_key_conflict, Booking, Text, Role, AuthenticatedUser, BookingStatus, Payment,
  Installment,
}
use heritage_philippines_v.Payments.Calculations.{counts}
use heritage_philippines_v.Payments.Store.{Store, World}
use heritage_philippines_v.Payments.Repository.Bookings.{PaymentActor, PaymentActorRole}
use heritage_philippines_v.Payments.Repository.Refunds.{sum_refunds_for_payment}
use heritage_philippines_v.Payments.Repository.Allocations.{
  sum_net_active_allocations_for_payment, sum_net_active_allocations_for_installment,
}
use heritage_philippines_v.Payments.Service.Replay.{
  RecordPaymentInput, StatusInput, RefundPaymentInput,
}
use heritage_philippines_v.Payments.Service.Payments.{
  record_payment_tx, confirm_payment_tx, reverse_payment_tx,
}
use heritage_philippines_v.Payments.Currencies.{php, has_supported_currency_precision}
use heritage_philippines_v.Payments.Repository.Bookings.{
  find_booking_financials_for_actor, booking_assignment_filter, holds_assignment, can_see_booking,
  find_booking,
}
use heritage_philippines_v.Payments.Repository.Payments.{
  find_payment, find_payment_for_actor, find_status_history_by_idempotency_key,
}
use heritage_philippines_v.Payments.Recording.{
  again, recorded_payment, recorded_in, record_payment_tx-recording_answer, record_payment_tx-again,
}
use heritage_philippines_v.Payments.Forbidden.{finance_clerk, IsUnassigned, payment_calls-forbidden}
use heritage_philippines_v.Payments.Repository.Refunds.{find_refund_by_idempotency_key}
use heritage_philippines_v.Payments.Repository.Allocations.{find_allocation_by_idempotency_key}
use heritage_philippines_v.Payments.Service.Refund.{refund_payment_tx}
use heritage_philippines_v.Payments.Service.Allocations.{create_allocation_tx}
use heritage_philippines_v.Payments.Service.Replay.{CreateAllocationInput}
use heritage_philippines_v.Payments.Model.{payment_forbidden, payment_conflict, PaymentPlanStatus}
use heritage_philippines_v.Payments.Repository.Plans.{find_installment}
use heritage_philippines_v.Payments.Confirming.{
  confirmed_payment, confirmed_in, confirm_payment_tx-confirming_answer, confirm_payment_tx-again,
}
use heritage_philippines_v.Payments.Ledger.Invariant.{LedgerFits}
use heritage_philippines_v.Payments.Safety.Interleaving.{
  serve, record_a_payment, confirm, refund, allocate, Reaches, stay, after_call, Reaches-LedgerFits,
}
use heritage_philippines_v.Payments.Safety.Bounds.{
  Reaches-refunds, Reaches-allocations, Reaches-coverage,
}
use heritage_philippines_v.Payments.Safety.Roles.{serve-refused}

-- "12.34" as 1234.
abbrev hundredths : ℕ → Text → ℕ
hundredths n [] = n
hundredths n (c ∷ s) = if c == 46 then hundredths n s else hundredths (n * 10 + (c - 48)) s

-- The number of the first identifier of a call makes its identifiers new.
abbrev world : ℕ → World
world first = record {
  to_decimal = λ text. pos (hundredths 0 text);
  to_fixed = λ d. [];
  to_date = λ text. hundredths 0 text;
  random_uuid = λ i. first + i;
  now = 1000;
}

abbrev quiet : Schedule Store
quiet = record { attempt = λ n. record { others = λ s. s; outcome = committed }; settled = λ s. s }

abbrev clerk : AuthenticatedUser
clerk = record { id = 7; role = Role.finance_accounting }

abbrev consultant : AuthenticatedUser
consultant = record { id = 8; role = Role.travel_consultant }

abbrev clerk_actor : PaymentActor
clerk_actor = record { id = 7; role = PaymentActorRole.finance_accounting }

abbrev shop : Store
shop = record {
  bookings =
      record {
        id = 1;
        booking_reference = [];
        client_id = 5;
        status = BookingStatus.confirmed;
        total_amount = some (pos 100000);
        currency_code = some (80 ∷ 72 ∷ 80 ∷ []);
      }
      ∷ [];
  assignments =
      record {
        booking_id = some 1;
        assigned_staff_id = 7;
        role = Role.finance_accounting;
        ended_at = none;
      }
      ∷ [];
  plans = [];
  installments = [];
  payments = [];
  history = [];
  refunds = [];
  refund_allocations = [];
  allocations = [];
  reversals = [];
  receipts = [];
  audit_log = [];
}

-- "500.00" and "120.00"
abbrev five_hundred : Text
five_hundred = 53 ∷ 48 ∷ 48 ∷ 46 ∷ 48 ∷ 48 ∷ []

abbrev one_hundred_twenty : Text
one_hundred_twenty = 49 ∷ 50 ∷ 48 ∷ 46 ∷ 48 ∷ 48 ∷ []

abbrev record_input : RecordPaymentInput
record_input = record { booking_id = 1; amount = five_hundred; idempotency_key = 1 }

abbrev confirm_input : StatusInput
confirm_input = record { payment_id = 10; reason = 97 ∷ []; idempotency_key = 2 }

abbrev refund_input : RefundPaymentInput
refund_input = record {
  payment_id = 10;
  amount = one_hundred_twenty;
  reason = 98 ∷ [];
  idempotency_key = 3;
  allocation_id = none;
}

abbrev recorded : Store
recorded = serve (world 10) quiet clerk (record_a_payment record_input) shop

abbrev confirmed : Store
confirmed = serve (world 20) quiet clerk (confirm confirm_input) recorded

abbrev refunded : Store
refunded = serve (world 30) quiet clerk (refund refund_input) confirmed

abbrev alone : {A : Type 0} → ℕ → Attempt A
alone n = record { others = λ s. s; outcome = committed }

shop-LedgerFits : LedgerFits shop
shop-LedgerFits = record { payment = tt; refund = tt; link = tt; allocation = tt; installment = tt }

shop-Reaches : Reaches shop refunded
shop-Reaches =
    after_call (world 30) quiet clerk (refund refund_input)
      (after_call (world 20) quiet clerk (confirm confirm_input)
        (after_call (world 10) quiet clerk (record_a_payment record_input) stay (λ n u. stay)
          (λ u. stay) (omega arith))
        (λ n u. stay) (λ u. stay) tt)
      (λ n u. stay) (λ u. stay) (omega arith)

Reaches-LedgerFits_example : LedgerFits refunded
Reaches-LedgerFits_example = Reaches-LedgerFits shop-Reaches shop-LedgerFits

Reaches-refunds_example :
    All
      (λ (p : Payment). sum_refunds_for_payment refunded.refunds p.id ≤ℤ p.amount)
      refunded.payments
Reaches-refunds_example = Reaches-refunds shop-Reaches shop-LedgerFits

Reaches-allocations_example :
    All
      (λ (p : Payment).
        counts p.status ≡ true
        → sum_net_active_allocations_for_payment p.id refunded
            +ℤ sum_refunds_for_payment refunded.refunds p.id
          ≤ℤ p.amount)
      refunded.payments
Reaches-allocations_example = Reaches-allocations shop-Reaches shop-LedgerFits

-- The shop with an approved plan of one installment of 300.00.
abbrev planned : Store
planned = record shop {
  plans =
      record {
        id = 40;
        booking_id = 1;
        client_id = 5;
        proposed_by_staff_user_id = 8;
        approved_by_staff_user_id = some 7;
        approved_at = some 900;
        status = PaymentPlanStatus.approved;
        withdrawn_at = none;
        withdrawn_by_staff_user_id = none;
        withdrawal_reason = none;
      }
      ∷ [];
  installments =
      record {
        id = 60;
        payment_plan_id = 40;
        sequence_number = 1;
        is_deposit = true;
        amount = pos 30000;
        due_date = 2000;
      }
      ∷ [];
}

planned-LedgerFits : LedgerFits planned
unfolding find_installment
planned-LedgerFits = record {
  payment = tt;
  refund = tt;
  link = tt;
  allocation = tt;
  installment = (record { unique = refl; positive = omega arith; covered = omega arith }, tt);
}

abbrev allocation_input : CreateAllocationInput
allocation_input = record {
  payment_id = 10;
  installment_id = 60;
  amount = one_hundred_twenty;
  idempotency_key = 4;
}

-- A payment of 500.00 is recorded and confirmed, and 120.00 of it are allocated to the installment.
abbrev paid : Store
paid = serve (world 10) quiet clerk (record_a_payment record_input) planned

abbrev paid_confirmed : Store
paid_confirmed = serve (world 20) quiet clerk (confirm confirm_input) paid

abbrev allocated : Store
allocated = serve (world 30) quiet clerk (allocate allocation_input) paid_confirmed

planned-Reaches : Reaches planned allocated
planned-Reaches =
    after_call (world 30) quiet clerk (allocate allocation_input)
      (after_call (world 20) quiet clerk (confirm confirm_input)
        (after_call (world 10) quiet clerk (record_a_payment record_input) stay (λ n u. stay)
          (λ u. stay) (omega arith))
        (λ n u. stay) (λ u. stay) tt)
      (λ n u. stay) (λ u. stay) (omega arith)

Reaches-coverage_example :
    All
      (λ (i : Installment). sum_net_active_allocations_for_installment i.id allocated ≤ℤ i.amount)
      allocated.installments
Reaches-coverage_example = Reaches-coverage planned-Reaches planned-LedgerFits

serve-refused_example :
    serve (world 10) quiet consultant (record_a_payment record_input) shop ≡ shop
serve-refused_example =
    serve-refused (world 10) quiet consultant (record_a_payment record_input) shop refl

abbrev shop_booking : Booking
shop_booking = record {
  id = 1;
  booking_reference = [];
  client_id = 5;
  status = BookingStatus.confirmed;
  total_amount = some (pos 100000);
  currency_code = some php;
}

shop_booking-found : find_booking_financials_for_actor clerk_actor 1 shop ≡ some shop_booking
unfolding find_booking_financials_for_actor booking_assignment_filter holds_assignment
shop_booking-found = refl

key_unused : find_status_history_by_idempotency_key 1 shop.history ≡ none
unfolding find_status_history_by_idempotency_key
key_unused = refl

id_unused : find_payment shop.payments 10 ≡ none
unfolding find_payment
id_unused = refl

record_payment_tx-recording_answer_example :
    record_payment_tx (world 10) clerk_actor record_input shop ≡ (
      if has_supported_currency_precision five_hundred php
      then ok (
        recorded_payment (world 10) clerk_actor record_input shop shop_booking,
        recorded_in (world 10) clerk_actor record_input shop shop_booking,
      )
      else err (domain payment_conflict))
record_payment_tx-recording_answer_example =
    record_payment_tx-recording_answer (world 10) clerk_actor record_input shop shop_booking
      shop_booking-found key_unused id_unused

record_payment_tx-again_example :
    record_payment_tx
      (world 40)
      clerk_actor
      (again (world 10) clerk_actor record_input shop shop_booking 1 one_hundred_twenty)
      (recorded_in (world 10) clerk_actor record_input shop shop_booking)
    ≡ (if eqb_ℤ (pos 50000) (pos 12000)
        then ok (
          recorded_payment (world 10) clerk_actor record_input shop shop_booking,
          recorded_in (world 10) clerk_actor record_input shop shop_booking,
        )
        else err (domain idempotency_key_conflict))
record_payment_tx-again_example =
    record_payment_tx-again (world 10) clerk_actor record_input shop shop_booking (world 40)
      clerk_actor 1 one_hundred_twenty shop_booking shop_booking-found id_unused

abbrev with_payment : Store
with_payment = recorded_in (world 10) clerk_actor record_input shop shop_booking

abbrev the_payment : Payment
the_payment = recorded_payment (world 10) clerk_actor record_input shop shop_booking

the_payment-seen : find_payment_for_actor clerk_actor 10 with_payment ≡ some the_payment
unfolding find_payment_for_actor can_see_booking booking_assignment_filter holds_assignment
    find_booking
the_payment-seen = refl

the_payment-found : find_payment with_payment.payments 10 ≡ some the_payment
unfolding find_payment
the_payment-found = refl

confirm_key_unused : find_status_history_by_idempotency_key 2 with_payment.history ≡ none
unfolding find_status_history_by_idempotency_key
confirm_key_unused = refl

shop_booking-booked : find_booking with_payment.bookings 1 ≡ some shop_booking
unfolding find_booking
shop_booking-booked = refl

confirm_payment_tx-confirming_answer_example :
    confirm_payment_tx (world 20) clerk_actor confirm_input with_payment
    ≡ ok (
      confirmed_payment (world 20) clerk_actor confirm_input with_payment the_payment,
      confirmed_in (world 20) clerk_actor confirm_input with_payment the_payment,
    )
confirm_payment_tx-confirming_answer_example =
    confirm_payment_tx-confirming_answer (world 20) clerk_actor confirm_input with_payment
      the_payment shop_booking the_payment-seen the_payment-found shop_booking-booked
      confirm_key_unused

confirm_payment_tx-again_example :
    confirm_payment_tx
      (world 50)
      clerk_actor
      confirm_input
      (confirmed_in (world 20) clerk_actor confirm_input with_payment the_payment)
    ≡ ok (
      confirmed_payment (world 20) clerk_actor confirm_input with_payment the_payment,
      confirmed_in (world 20) clerk_actor confirm_input with_payment the_payment,
    )
confirm_payment_tx-again_example =
    confirm_payment_tx-again (world 20) clerk_actor confirm_input with_payment the_payment
      (world 50) the_payment-seen

-- The shop after the payment, where staff member 9 was assigned to the booking until 800 and has
-- another booking now.
abbrev staffed : Store
staffed = record with_payment {
  assignments =
      record {
        booking_id = some 1;
        assigned_staff_id = 9;
        role = Role.finance_accounting;
        ended_at = some 800;
      }
      ∷ record {
        booking_id = some 2;
        assigned_staff_id = 9;
        role = Role.finance_accounting;
        ended_at = none;
      }
      ∷ with_payment.assignments;
}

clerk_9-IsUnassigned : IsUnassigned 9 staffed.assignments 1
clerk_9-IsUnassigned = (
  λ booked mine clerks active. cc,
  (λ booked mine clerks active. ground arith, (λ booked mine clerks active. ground arith, tt)),
)

refund_key_unused : find_refund_by_idempotency_key 3 staffed.refunds ≡ none
unfolding find_refund_by_idempotency_key
refund_key_unused = refl

refund_key_unused_in_history : find_status_history_by_idempotency_key 3 staffed.history ≡ none
unfolding find_status_history_by_idempotency_key
refund_key_unused_in_history = refl

allocation_key_unused : find_allocation_by_idempotency_key 4 staffed.allocations ≡ none
unfolding find_allocation_by_idempotency_key
allocation_key_unused = refl

payment_calls-forbidden_example :
    (confirm_payment_tx (world 20) (finance_clerk 9) confirm_input staffed
      ≡ err (domain payment_forbidden))
    × (reverse_payment_tx (world 20) (finance_clerk 9) confirm_input staffed
        ≡ err (domain payment_forbidden))
    × (refund_payment_tx (world 20) (finance_clerk 9) refund_input staffed
        ≡ err (domain payment_forbidden))
    × (create_allocation_tx (world 20) (finance_clerk 9) allocation_input staffed
        ≡ err (domain payment_forbidden))
payment_calls-forbidden_example =
    payment_calls-forbidden (world 20) 9 staffed confirm_input refund_input allocation_input refl
      refl (λ same. clerk_9-IsUnassigned, tt) confirm_key_unused refund_key_unused
      refund_key_unused_in_history allocation_key_unused
