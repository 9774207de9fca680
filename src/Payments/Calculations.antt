-- ===== src/Payments/Calculations.antt =====
-- apps/web/src/features/payments/calculations.ts: the formulas for balances, over values that the
-- caller has fetched. A date is its number of milliseconds.
pub mod Laws
pub mod Paid
mod Tests
use heritage_philippines_v.Prelude.{
  ℕ, Bool, true, false, Option, none, some, List, [], ◌∷◌, ltb, ◌==◌, ◌&&◌, if◌then◌else◌,
}
use heritage_philippines_v.Prelude.Int.{pos, ◌+ℤ◌, ◌-ℤ◌, ltb_ℤ, is_negative}
use heritage_philippines_v.Payments.Model.{Decimal, PaymentStatus}

-- `this.greaterThan(other)`
abbrev pub greater_than : Decimal → Decimal → Bool
greater_than a b = ltb_ℤ b a

pub record PaymentForCalculation : Type 0 where
  pub status : PaymentStatus
  pub amount : Decimal
  pub refunded_total : Decimal

-- The status is `CONFIRMED` or `REFUNDED`.
abbrev pub counts : PaymentStatus → Bool
counts PaymentStatus.confirmed = true
counts PaymentStatus.refunded = true
counts PaymentStatus.pending = false
counts PaymentStatus.rejected = false
counts PaymentStatus.cancelled = false
counts PaymentStatus.failed = false
counts PaymentStatus.reversed = false

-- `Decimal.max(value, 0)`, as the code spells it.
abbrev pub clamp_negative : Decimal → Decimal
clamp_negative d = if is_negative d then pos 0 else d

unfoldable pub compute_net_contribution : PaymentForCalculation → Decimal
compute_net_contribution payment =
    if counts payment.status
    then clamp_negative (payment.amount -ℤ payment.refunded_total)
    else pos 0

-- A `reduce` from the left, as `total.plus(value)`.
unfoldable pub net_confirmed_from : Decimal → List PaymentForCalculation → Decimal
net_confirmed_from total [] = total
net_confirmed_from total (payment ∷ payments) =
    net_confirmed_from (total +ℤ compute_net_contribution payment) payments

unfoldable pub compute_net_confirmed_amount_paid : List PaymentForCalculation → Decimal
unfolding net_confirmed_from
compute_net_confirmed_amount_paid = net_confirmed_from (pos 0)

unfoldable pub compute_remaining_balance : Decimal → Decimal → Decimal
compute_remaining_balance total_amount net_confirmed =
    clamp_negative (total_amount -ℤ net_confirmed)

unfoldable pub compute_overpayment : Decimal → Decimal → Decimal
compute_overpayment total_amount net_confirmed = clamp_negative (net_confirmed -ℤ total_amount)

pub record ActiveAllocationForCalculation : Type 0 where
  pub amount : Decimal
  pub payment_status : PaymentStatus
  pub is_reversed : Bool
  pub refund_allocated_total : Decimal

unfoldable pub add_active_allocation : Decimal → ActiveAllocationForCalculation → Decimal
add_active_allocation total allocation =
    if allocation.is_reversed
    then total
    else if counts allocation.payment_status
    then total +ℤ allocation.amount -ℤ allocation.refund_allocated_total
    else total

unfoldable pub net_active_from : Decimal → List ActiveAllocationForCalculation → Decimal
net_active_from total [] = total
net_active_from total (allocation ∷ rest) =
    net_active_from (add_active_allocation total allocation) rest

unfoldable pub compute_net_active_allocation : List ActiveAllocationForCalculation → Decimal
unfolding net_active_from add_active_allocation
compute_net_active_allocation = net_active_from (pos 0)

unfoldable pub plus_all : Decimal → List Decimal → Decimal
plus_all total [] = total
plus_all total (d ∷ ds) = plus_all (total +ℤ d) ds

unfoldable pub compute_unapplied_credit : Decimal → List Decimal → Decimal
unfolding plus_all
compute_unapplied_credit net_confirmed net_active_by_installment =
    net_confirmed -ℤ plus_all (pos 0) net_active_by_installment

unfoldable pub compute_outstanding_installment_amount : Decimal → Decimal → Decimal
compute_outstanding_installment_amount installment_amount net_active =
    clamp_negative (installment_amount -ℤ net_active)

pub record InstallmentForNextDue : Type 0 where
  pub due_date : ℕ
  pub outstanding_amount : Decimal

abbrev earlier : ℕ → Option ℕ → Bool
earlier date none = true
earlier date (some earliest) = ltb date earliest

unfoldable pub next_due_from : Option ℕ → List InstallmentForNextDue → Option ℕ
next_due_from earliest [] = earliest
next_due_from earliest (i ∷ rest) =
    next_due_from
      (if greater_than i.outstanding_amount (pos 0) && earlier i.due_date earliest
        then some i.due_date
        else earliest)
      rest

unfoldable pub compute_next_payment_due : List InstallmentForNextDue → Option ℕ
unfolding next_due_from
compute_next_payment_due = next_due_from none

unfoldable pub due_amount_from : ℕ → Decimal → List InstallmentForNextDue → Decimal
due_amount_from next_due total [] = total
due_amount_from next_due total (i ∷ rest) =
    due_amount_from next_due
      (if i.due_date == next_due && greater_than i.outstanding_amount (pos 0)
        then total +ℤ i.outstanding_amount
        else total)
      rest

abbrev due_amount_at : List InstallmentForNextDue → Option ℕ → Option Decimal
due_amount_at installments none = none
due_amount_at installments (some next_due) = some (due_amount_from next_due (pos 0) installments)

unfoldable pub compute_next_payment_due_amount : List InstallmentForNextDue → Option Decimal
unfolding compute_next_payment_due due_amount_from
compute_next_payment_due_amount installments =
    due_amount_at installments (compute_next_payment_due installments)
