-- ===== src/Payments/Model.antt =====
-- The tables that the payments feature reads and writes (apps/web/prisma/schema.prisma), the errors
-- that it raises (payments/errors.ts) and the actors. Identifiers, idempotency keys and instants are
-- only compared, so they are numbers; a text is the list of its code points; an amount of money is
-- its number of hundredths.
use heritage_philippines_v.Prelude.{ℕ, Bool, Option, List}
use heritage_philippines_v.Prelude.Int.{ℤ}

abbrev pub Decimal : Type 0
Decimal = ℤ

abbrev pub Text : Type 0
Text = List ℕ

pub data Role : Type 0 where
  system_administrator admin_manager travel_consultant finance_accounting : Role
  visa_documentation client : Role

pub record AuthenticatedUser : Type 0 where
  pub id : ℕ
  pub role : Role

pub data PaymentErrorCode : Type 0 where
  role_not_permitted booking_not_found booking_forbidden payment_plan_not_found : PaymentErrorCode
  payment_plan_forbidden payment_plan_conflict payment_not_found : PaymentErrorCode
  payment_forbidden invalid_payment_transition payment_conflict : PaymentErrorCode
  allocation_not_permitted allocation_reversal_not_permitted : PaymentErrorCode
  refund_exceeds_remaining receipt_not_permitted idempotency_key_conflict : PaymentErrorCode
  booking_currency_not_set booking_financials_locked : PaymentErrorCode
  booking_status_not_permitted export_row_limit_exceeded : PaymentErrorCode

-- `PaymentError.status`
pub status_by_code : PaymentErrorCode → ℕ
status_by_code role_not_permitted = 403
status_by_code booking_not_found = 404
status_by_code booking_forbidden = 403
status_by_code payment_plan_not_found = 404
status_by_code payment_plan_forbidden = 403
status_by_code payment_plan_conflict = 409
status_by_code payment_not_found = 404
status_by_code payment_forbidden = 403
status_by_code invalid_payment_transition = 409
status_by_code payment_conflict = 409
status_by_code allocation_not_permitted = 409
status_by_code allocation_reversal_not_permitted = 409
status_by_code refund_exceeds_remaining = 409
status_by_code receipt_not_permitted = 409
status_by_code idempotency_key_conflict = 409
status_by_code booking_currency_not_set = 409
status_by_code booking_financials_locked = 409
status_by_code booking_status_not_permitted = 409
status_by_code export_row_limit_exceeded = 422

pub data BookingStatus : Type 0 where
  draft pending_confirmation confirmed in_preparation documents_required : BookingStatus
  visa_processing ready_for_travel in_progress completed cancelled : BookingStatus

pub data PaymentStatus : Type 0 where
  pending confirmed rejected cancelled failed refunded reversed : PaymentStatus

pub data PaymentPlanStatus : Type 0 where
  proposed approved withdrawn : PaymentPlanStatus

pub record Booking : Type 0 where
  pub id : ℕ
  pub booking_reference : Text
  pub client_id : ℕ
  pub status : BookingStatus
  pub total_amount : Option Decimal
  pub currency_code : Option Text

pub record StaffAssignment : Type 0 where
  pub booking_id : Option ℕ
  pub assigned_staff_id : ℕ
  pub role : Role
  pub ended_at : Option ℕ

pub record PaymentPlan : Type 0 where
  pub id : ℕ
  pub booking_id : ℕ
  pub client_id : ℕ
  pub proposed_by_staff_user_id : ℕ
  pub approved_by_staff_user_id : Option ℕ
  pub approved_at : Option ℕ
  pub status : PaymentPlanStatus
  pub withdrawn_at : Option ℕ
  pub withdrawn_by_staff_user_id : Option ℕ
  pub withdrawal_reason : Option Text

pub record Installment : Type 0 where
  pub id : ℕ
  pub payment_plan_id : ℕ
  pub sequence_number : ℕ
  pub is_deposit : Bool
  pub amount : Decimal
  pub due_date : ℕ

pub record Payment : Type 0 where
  pub id : ℕ
  pub booking_id : ℕ
  pub client_id : ℕ
  pub amount : Decimal
  pub status : PaymentStatus

pub record PaymentStatusHistory : Type 0 where
  pub id : ℕ
  pub payment_id : ℕ
  pub previous_status : Option PaymentStatus
  pub new_status : PaymentStatus
  pub changed_by_user_id : ℕ
  pub reason : Option Text
  pub idempotency_key : Option ℕ

pub record PaymentRefund : Type 0 where
  pub id : ℕ
  pub payment_id : ℕ
  pub amount : Decimal
  pub reason : Text
  pub performed_by_staff_user_id : ℕ
  pub idempotency_key : ℕ

pub record PaymentRefundAllocation : Type 0 where
  pub id : ℕ
  pub payment_refund_id : ℕ
  pub payment_allocation_id : ℕ
  pub amount : Decimal

pub record PaymentAllocation : Type 0 where
  pub id : ℕ
  pub payment_id : ℕ
  pub installment_id : ℕ
  pub amount : Decimal
  pub allocated_by_staff_user_id : ℕ
  pub idempotency_key : ℕ

pub record PaymentAllocationReversal : Type 0 where
  pub id : ℕ
  pub payment_allocation_id : ℕ
  pub reversed_by_staff_user_id : ℕ
  pub reason : Text
  pub idempotency_key : ℕ

pub record Receipt : Type 0 where
  pub id : ℕ
  pub payment_id : ℕ
  pub receipt_number : ℕ
  pub issued_by_staff_user_id : ℕ
  pub amount : Decimal
  pub currency_code : Text
