-- ===== src/Payments/Calculations/Paid.antt =====
-- The amount paid of a booking, `computeNetConfirmedAmountPaid` of
-- apps/web/src/features/payments/calculations.ts, against sums over its settled payments.
use heritage_philippines_v.Prelude.{Bool, true, false, List, [], ◌∷◌, if◌then◌else◌}
use heritage_philippines_v.Prelude.Int.{pos, ◌+ℤ◌, ltb_ℤ}
use heritage_philippines_v.Payments.Model.{Decimal, PaymentStatus}
use heritage_philippines_v.Payments.Calculations.{PaymentForCalculation}

-- A payment of the status holds money: it is confirmed or refunded.
abbrev pub is_settled : PaymentStatus → Bool
is_settled PaymentStatus.confirmed = true
is_settled PaymentStatus.refunded = true
is_settled PaymentStatus.pending = false
is_settled PaymentStatus.rejected = false
is_settled PaymentStatus.cancelled = false
is_settled PaymentStatus.failed = false
is_settled PaymentStatus.reversed = false

-- What the settled payments come to by the given amount of each.
abbrev pub settled_sum : (PaymentForCalculation → Decimal) → List PaymentForCalculation → Decimal
settled_sum f [] = pos 0
settled_sum f (p ∷ ps) =
    let rest = settled_sum f ps in if is_settled p.status then f p +ℤ rest else rest

-- What of a payment is refunded, up to its amount.
abbrev pub refunded_part : PaymentForCalculation → Decimal
refunded_part p = if ltb_ℤ p.amount p.refunded_total then p.amount else p.refunded_total
