-- ===== src/Payments/Store.antt =====
-- The database as the payments feature sees it, and what it takes from code that is not its own:
-- decimal.js, `randomUUID` and the clock.
use heritage_philippines_v.Prelude.{ℕ, Bool, true, false, some, List, [], ◌∷◌, if◌then◌else◌}
use heritage_philippines_v.Prelude.Int.{pos, ◌+ℤ◌}
use heritage_philippines_v.Transaction.{Tx, unique, modify, throw_failure}
use heritage_philippines_v.Payments.Audit.{AuditEntry}
use heritage_philippines_v.Payments.Model.{
  Decimal, Text, PaymentErrorCode, Booking, StaffAssignment, PaymentPlan, Installment, Payment,
  PaymentStatusHistory, PaymentRefund, PaymentRefundAllocation, PaymentAllocation,
  PaymentAllocationReversal, Receipt,
}
use Prim.Native.String.{String}

-- One list for each table, the newest row first.
pub record Store : Type 0 where
  pub bookings : List Booking
  pub assignments : List StaffAssignment
  pub plans : List PaymentPlan
  pub installments : List Installment
  pub payments : List Payment
  pub history : List PaymentStatusHistory
  pub refunds : List PaymentRefund
  pub refund_allocations : List PaymentRefundAllocation
  pub allocations : List PaymentAllocation
  pub reversals : List PaymentAllocationReversal
  pub receipts : List Receipt
  pub audit_log : List AuditEntry

-- `new Prisma.Decimal(text)`, `toFixed(2)`, the date of `${text}T00:00:00.000Z`, the i-th
-- `randomUUID()` of a call, and `new Date()`.
pub record World : Type 0 where
  pub to_decimal : Text → Decimal
  pub to_fixed : Decimal → Text
  pub to_date : Text → ℕ
  pub random_uuid : ℕ → ℕ
  pub now : ℕ

abbrev pub PaymentTx : Type 0 → Type 0
PaymentTx = Tx Store PaymentErrorCode

-- `SUM(value WHERE test)`, and 0 for no row.
abbrev pub sum_where {ℓ} : {A : Type ℓ} → (A → Bool) → (A → Decimal) → List A → Decimal
sum_where p f [] = pos 0
sum_where p f (x ∷ xs) = (if p x then f x else pos 0) +ℤ sum_where p f xs

-- A unique index refuses the insert, or the rows are written.
unfoldable pub insert_unless : Bool → String → String → (Store → Store) → PaymentTx (Unit {0})
unfolding throw_failure modify
insert_unless true model_name column write s =
    throw_failure (unique (record { model_name = some model_name; fields = column ∷ [] })) s
insert_unless false model_name column write s = modify write s
