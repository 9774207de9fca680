-- ===== src/Payments/Service/Summary.antt =====
-- Payments service: `buildBookingPaymentSummary`.
use heritage_philippines_v.Prelude.{ℕ, Bool, true, false, Option, none, some, List, [], map, any}
use heritage_philippines_v.Payments.Model.{Decimal, Text, Booking, PaymentStatus, PaymentPlanStatus}
use heritage_philippines_v.Payments.Calculations.{
  greater_than, PaymentForCalculation, ActiveAllocationForCalculation, InstallmentForNextDue,
  compute_net_confirmed_amount_paid, compute_net_active_allocation,
  compute_outstanding_installment_amount, compute_remaining_balance, compute_overpayment,
  compute_unapplied_credit, compute_next_payment_due, compute_next_payment_due_amount,
}
use heritage_philippines_v.Payments.Service.Plans.{is_approved}

-- `BookingPaymentSummaryData`, the nested read of a booking.
pub record AllocationData : Type 0 where
  pub id : ℕ
  pub payment_id : ℕ
  pub amount : Decimal
  pub is_reversed : Bool
  pub refund_allocated_total : Decimal
  pub payment_status : PaymentStatus

pub record InstallmentData : Type 0 where
  pub id : ℕ
  pub due_date : ℕ
  pub amount : Decimal
  pub allocations : List AllocationData

pub record PlanData : Type 0 where
  pub id : ℕ
  pub status : PaymentPlanStatus
  pub installments : List InstallmentData

pub record PaymentData : Type 0 where
  pub id : ℕ
  pub amount : Decimal
  pub status : PaymentStatus
  pub refunded_total : Decimal

pub record BookingPaymentSummaryData : Type 0 where
  pub booking : Booking
  pub plan : Option PlanData
  pub payments : List PaymentData

pub record InstallmentSummary : Type 0 where
  pub id : ℕ
  pub due_date : ℕ
  pub amount : Decimal
  pub net_active_allocation : Decimal
  pub outstanding_amount : Decimal
  pub allocations : List AllocationData

pub record BookingPaymentSummary : Type 0 where
  pub booking_id : ℕ
  pub booking_reference : Text
  pub total_amount : Option Decimal
  pub currency_code : Option Text
  pub plan_approved : Bool
  pub confirmed_amount_paid : Decimal
  pub remaining_balance : Option Decimal
  pub overpayment : Option Decimal
  pub unapplied_credit : Decimal
  pub next_payment_due : Option ℕ
  pub next_payment_due_amount : Option Decimal
  pub installments : List InstallmentSummary
  pub payments : List PaymentData

abbrev pub for_calculation : PaymentData → PaymentForCalculation
for_calculation p = record {
  status = p.status;
  amount = p.amount;
  refunded_total = p.refunded_total;
}

abbrev pub active_allocation : AllocationData → ActiveAllocationForCalculation
active_allocation a = record {
  amount = a.amount;
  payment_status = a.payment_status;
  is_reversed = a.is_reversed;
  refund_allocated_total = a.refund_allocated_total;
}

abbrev pub installment_summary : InstallmentData → InstallmentSummary
installment_summary i =
    let net_active = compute_net_active_allocation (map active_allocation i.allocations) in
    record {
      id = i.id;
      due_date = i.due_date;
      amount = i.amount;
      net_active_allocation = net_active;
      outstanding_amount = compute_outstanding_installment_amount i.amount net_active;
      allocations = i.allocations;
    }

abbrev pub next_due_input : InstallmentSummary → InstallmentForNextDue
next_due_input i = record { due_date = i.due_date; outstanding_amount = i.outstanding_amount }

abbrev plan_installments : Option PlanData → List InstallmentData
plan_installments none = []
plan_installments (some p) = p.installments

abbrev plan_is_approved : Option PlanData → Bool
plan_is_approved none = false
plan_is_approved (some p) = is_approved p.status

abbrev of_total : (Decimal → Decimal) → Option Decimal → Option Decimal
of_total f none = none
of_total f (some total_amount) = some (f total_amount)

-- Some payment has stored refunds above its amount.
unfoldable pub has_excess_refunds : List PaymentData → Bool
has_excess_refunds = any (λ p. greater_than p.refunded_total p.amount)

-- The answer once no payment has excess refunds.
unfoldable pub summary_of : ℕ → BookingPaymentSummaryData → BookingPaymentSummary
summary_of booking_id d =
    let paid = compute_net_confirmed_amount_paid (map for_calculation d.payments) in
    let installments = map installment_summary (plan_installments d.plan) in
    let due = map next_due_input installments in
    record {
      booking_id = booking_id;
      booking_reference = d.booking.booking_reference;
      total_amount = d.booking.total_amount;
      currency_code = d.booking.currency_code;
      plan_approved = plan_is_approved d.plan;
      confirmed_amount_paid = paid;
      remaining_balance = of_total (λ t. compute_remaining_balance t paid) d.booking.total_amount;
      overpayment = of_total (λ t. compute_overpayment t paid) d.booking.total_amount;
      unapplied_credit =
          compute_unapplied_credit paid (map (λ i. i.net_active_allocation) installments);
      next_payment_due = compute_next_payment_due due;
      next_payment_due_amount = compute_next_payment_due_amount due;
      installments = installments;
      payments = d.payments;
    }

-- `none` is the plain `Error` of `requireStoredRefundsWithinAmount`.
unfoldable pub build_booking_payment_summary :
    ℕ → BookingPaymentSummaryData → Option BookingPaymentSummary
unfolding has_excess_refunds
build_booking_payment_summary booking_id d = elim (has_excess_refunds d.payments) [
  | true ↦ none
  | false ↦ some (summary_of booking_id d)
]
