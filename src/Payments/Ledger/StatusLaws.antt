-- ===== src/Payments/Ledger/StatusLaws.antt =====
-- How the refunds and the allocations of a payment may move under its status.
use heritage_philippines_v.Prelude.{Bool, true, ◌≡◌, inl, inr, ◌⊎◌, arith, Bool-cases}
use heritage_philippines_v.Prelude.Int.{
  pos, ◌+ℤ◌, ◌-ℤ◌, ◌≤ℤ◌, ◌<ℤ◌, is_negative, int_laws, is_negative-true,
}
use heritage_philippines_v.Payments.Model.{Decimal, PaymentStatus}
use heritage_philippines_v.Payments.Calculations.{clamp_negative, compute_net_contribution}
use heritage_philippines_v.Payments.Ledger.Invariant.{StatusFits}

-- Fewer net allocations fit as well.
pub StatusFits-le :
    (status : PaymentStatus) (amount refunded active active' : Decimal) (allocated : Bool)
    → active' ≤ℤ active
    → StatusFits status amount refunded active allocated
    → StatusFits status amount refunded active' allocated
StatusFits-le PaymentStatus.confirmed amount refunded active active' allocated le (a, b, c) =
    (a, b, omega (int_laws, le, c))
StatusFits-le PaymentStatus.refunded amount refunded active active' allocated le (a, b) =
    (a, omega (arith, le, b))
StatusFits-le PaymentStatus.reversed amount refunded active active' allocated le h = h
StatusFits-le PaymentStatus.pending amount refunded active active' allocated le h = h
StatusFits-le PaymentStatus.rejected amount refunded active active' allocated le h = h
StatusFits-le PaymentStatus.cancelled amount refunded active active' allocated le h = h
StatusFits-le PaymentStatus.failed amount refunded active active' allocated le h = h

pub clamp_cases :
    (d : Decimal) → (clamp_negative d ≡ d) ⊎ ((clamp_negative d ≡ pos 0) × (d <ℤ pos 0))
clamp_cases d = elim (Bool-cases (is_negative d)) [
  | inl e ↦ inr (rw e, is_negative-true d e)
  | inr e ↦ inl (rw e)
]

-- An allocation within the net contribution fits; only a confirmed payment has room for one.
pub StatusFits-allocate :
    (status : PaymentStatus) (amount refunded active active' more : Decimal) (allocated : Bool)
    → pos 0 ≤ℤ active
    → pos 0 <ℤ more
    → active +ℤ more
      ≤ℤ compute_net_contribution
          (record { status = status; amount = amount; refunded_total = refunded })
    → active' ≤ℤ active +ℤ more
    → StatusFits status amount refunded active allocated
    → StatusFits status amount refunded active' true
unfolding compute_net_contribution
StatusFits-allocate PaymentStatus.confirmed amount refunded active active' more allocated h p room
      le (a, b, c) =
    elim (clamp_cases (amount -ℤ refunded)) [
      | inl e ↦ (a, b, omega (int_laws, le, rw e at room))
      | inr (e, neg) ↦ absurd (omega (int_laws, b, neg))
    ]
StatusFits-allocate PaymentStatus.refunded amount refunded active active' more allocated h p room le
      (a, b) =
    elim (clamp_cases (amount -ℤ refunded)) [
      | inl e ↦ absurd (omega (int_laws, rw a at (rw e at room)))
      | inr (e, neg) ↦ absurd (omega (int_laws, rw e at room))
    ]
StatusFits-allocate PaymentStatus.reversed amount refunded active active' more allocated h p room le
      f =
    absurd (omega (int_laws, room))
StatusFits-allocate PaymentStatus.pending amount refunded active active' more allocated h p room le
      f =
    absurd (omega (int_laws, room))
StatusFits-allocate PaymentStatus.rejected amount refunded active active' more allocated h p room le
      f =
    absurd (omega (int_laws, room))
StatusFits-allocate PaymentStatus.cancelled amount refunded active active' more allocated h p room
      le f =
    absurd (omega (int_laws, room))
StatusFits-allocate PaymentStatus.failed amount refunded active active' more allocated h p room le
      f =
    absurd (omega (int_laws, room))
