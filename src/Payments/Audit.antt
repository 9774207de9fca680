-- ===== src/Payments/Audit.antt =====
-- apps/web/src/features/payments/audit.ts: the actions, the audited entities and the snapshots, each
-- built from exactly the fields that it names. Instants stay numbers where the code prints them.
use heritage_philippines_v.Prelude.{ℕ, Bool, Option, List, map}
use heritage_philippines_v.Payments.Model.{
  Decimal, Text, PaymentStatus, PaymentPlanStatus, PaymentPlan, Installment,
}

pub data AuditAction : Type 0 where
  booking_financials_set booking_financials_changed : AuditAction
  payment_plan_proposed payment_plan_approved payment_plan_withdrawn : AuditAction
  payment_recorded payment_status_changed payment_refunded : AuditAction
  payment_allocation_created payment_allocation_reversed : AuditAction
  receipt_issued finance_export_generated : AuditAction

pub data AuditEntity : Type 0 where
  booking payment_plan payment payment_allocation receipt finance_export : AuditEntity

pub record AuditPaymentPlanSnapshot : Type 0 where
  pub id : ℕ
  pub booking_id : ℕ
  pub client_id : ℕ
  pub approved_by_staff_user_id : Option ℕ
  pub approved_at : Option ℕ
  pub status : PaymentPlanStatus

pub record AuditInstallmentSnapshot : Type 0 where
  pub sequence_number : ℕ
  pub is_deposit : Bool
  pub amount : Text
  pub due_date : ℕ

pub record AuditPaymentRefundSnapshot : Type 0 where
  pub payment_id : ℕ
  pub amount : Text
  pub reason : Text
  pub allocation_id : Option ℕ
  pub status : PaymentStatus
  pub refunded_total : Text

-- The `beforeState` or the `afterState` of an entry.
pub data AuditSnapshot : Type 0 where
  -- `totalAmount`, `currencyCode`
  financials_before : Option Text → Option Text → AuditSnapshot
  -- `totalAmount`, `currencyCode`, `currencyListVersion`, `reason` where it is given
  financials_after : Text → Text → Text → Option Text → AuditSnapshot
  plan : AuditPaymentPlanSnapshot → AuditSnapshot
  -- `status`, and `approvedAt: null`
  plan_before_approval : PaymentPlanStatus → AuditSnapshot
  plan_before_withdrawal : AuditPaymentPlanSnapshot → List AuditInstallmentSnapshot → AuditSnapshot
  -- `withdrawnAt`, `withdrawnByStaffUserId`, `reason`, with `status: 'WITHDRAWN'`
  plan_after_withdrawal : ℕ → ℕ → Text → AuditSnapshot
  -- `bookingId`, `amount`
  recorded : ℕ → Text → AuditSnapshot
  payment_status : PaymentStatus → AuditSnapshot
  payment_status_change : PaymentStatus → Text → AuditSnapshot
  -- `status`, `refundedTotal`
  refund_before : PaymentStatus → Text → AuditSnapshot
  refund_after : AuditPaymentRefundSnapshot → AuditSnapshot
  -- `paymentId`, `installmentId`, `amount`
  allocation : ℕ → ℕ → Text → AuditSnapshot
  -- `paymentAllocationId`, `reason`
  allocation_reversal : ℕ → Text → AuditSnapshot
  -- `paymentId`, `receiptNumber`, `amount`
  receipt_issue : ℕ → ℕ → Text → AuditSnapshot

pub record AuditEntry : Type 0 where
  pub id : ℕ
  pub actor_id : ℕ
  pub action : AuditAction
  pub entity_type : AuditEntity
  pub entity_id : ℕ
  pub before_state : Option AuditSnapshot
  pub after_state : Option AuditSnapshot

unfoldable pub sanitize_payment_plan_snapshot : PaymentPlan → AuditPaymentPlanSnapshot
sanitize_payment_plan_snapshot p = record {
  id = p.id;
  booking_id = p.booking_id;
  client_id = p.client_id;
  approved_by_staff_user_id = p.approved_by_staff_user_id;
  approved_at = p.approved_at;
  status = p.status;
}

unfoldable pub sanitize_withdrawal_before :
    (Decimal → Text) → PaymentPlan → List Installment → AuditSnapshot
unfolding sanitize_payment_plan_snapshot
sanitize_withdrawal_before to_fixed p installments =
    AuditSnapshot.plan_before_withdrawal (sanitize_payment_plan_snapshot p) (
      map
        (λ i. record {
          sequence_number = i.sequence_number;
          is_deposit = i.is_deposit;
          amount = to_fixed i.amount;
          due_date = i.due_date;
        })
        installments)
