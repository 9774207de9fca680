-- ===== src/Payments/Calculations/Tests.antt =====
-- Balances on which the laws of the formulas are applied.
use heritage_philippines_v.Prelude.{ℕ, none, some, List, [], ◌∷◌, ◌≡◌, All, ◌⊎◌}
use heritage_philippines_v.Prelude.Int.{pos, ◌-ℤ◌, ◌≤ℤ◌, ◌<ℤ◌}
use heritage_philippines_v.Payments.Model.{PaymentStatus}
use heritage_philippines_v.Payments.Calculations.{
  PaymentForCalculation, compute_remaining_balance, compute_overpayment, InstallmentForNextDue,
  compute_next_payment_due, compute_next_payment_due_amount,
}
use heritage_philippines_v.Payments.Calculations.Laws.{
  remaining-overpayment, sum_due, NoLater, FallsOn, next_payment_due-earliest,
  next_payment_due_amount-sum_due,
}

remaining-overpayment_example :
    (pos 0 ≤ℤ compute_remaining_balance (pos 100000) (pos 38000))
    × (pos 0 ≤ℤ compute_overpayment (pos 100000) (pos 38000))
    × ((compute_remaining_balance (pos 100000) (pos 38000) ≡ pos 0)
        ⊎ (compute_overpayment (pos 100000) (pos 38000) ≡ pos 0))
    × (compute_remaining_balance (pos 100000) (pos 38000)
          -ℤ compute_overpayment (pos 100000) (pos 38000)
        ≡ pos 100000 -ℤ pos 38000)
remaining-overpayment_example = remaining-overpayment (pos 100000) (pos 38000)

abbrev part_refunded : PaymentForCalculation
part_refunded = record {
  status = PaymentStatus.confirmed;
  amount = pos 50000;
  refunded_total = pos 12000;
}

abbrev payments_of_booking : List PaymentForCalculation
payments_of_booking =
    part_refunded
    ∷ record { status = PaymentStatus.pending; amount = pos 900; refunded_total = pos 0 }
    ∷ record { status = PaymentStatus.refunded; amount = pos 700; refunded_total = pos 700 }
    ∷ []

abbrev two_installments : List InstallmentForNextDue
two_installments =
    record { due_date = 30; outstanding_amount = pos 400 }
    ∷ record { due_date = 20; outstanding_amount = pos 0 }
    ∷ []

next_payment_due-earliest_example :
    All
      (λ (i : InstallmentForNextDue).
        pos 0 <ℤ i.outstanding_amount
        → NoLater (compute_next_payment_due two_installments) (some i.due_date))
      two_installments
    × ((date : ℕ)
        → compute_next_payment_due two_installments ≡ some date
        → FallsOn date two_installments)
next_payment_due-earliest_example = next_payment_due-earliest two_installments

next_payment_due_amount-sum_due_example :
    ((compute_next_payment_due two_installments ≡ none)
      × (compute_next_payment_due_amount two_installments ≡ none))
    ⊎ ((date : ℕ) × ((compute_next_payment_due two_installments ≡ some date)
          × (compute_next_payment_due_amount two_installments
              ≡ some (sum_due date two_installments))
          × (pos 0 <ℤ sum_due date two_installments)))
next_payment_due_amount-sum_due_example = next_payment_due_amount-sum_due two_installments
