-- ===== src/Payments/Service/Plans.antt =====
-- Payments service: `proposePaymentPlan`, `approvePaymentPlan` and `withdrawPaymentPlan`.
use heritage_philippines_v.Prelude.{
  ℕ, suc, ◌+◌, Bool, true, false, none, some, List, [], ◌∷◌, not, ◌==◌, ltb, length, any, select,
  is_some, if◌then◌else◌,
}
use heritage_philippines_v.Prelude.Int.{eqb_ℤ}
use heritage_philippines_v.Transaction.{
  Failure, domain, err, Action, Schedule, pure, gets, require, or_throw, ◌>>=◌, ◌>>◌,
  run_serializable_with_retry, with_handler, is_unique_violation_on,
}
use heritage_philippines_v.Payments.Model.{
  Text, AuthenticatedUser, PaymentErrorCode, booking_forbidden, payment_plan_conflict,
  payment_plan_forbidden, PaymentPlan, PaymentPlanStatus,
}
use heritage_philippines_v.Payments.Audit.{
  AuditEntity, AuditSnapshot, AuditAction, sanitize_payment_plan_snapshot,
  sanitize_withdrawal_before,
}
use heritage_philippines_v.Payments.Store.{Store, World, PaymentTx}
use heritage_philippines_v.Payments.Repository.Bookings.{
  PaymentActor, is_withdrawn, find_booking_financials_for_actor,
}
use heritage_philippines_v.Payments.Repository.Plans.{
  ProposedInstallment, is_proposed, find_payment_plan_by_booking_id_for_actor,
  find_payment_plan_with_booking_for_actor, create_payment_plan_with_installments,
  sum_installment_amounts, approve_payment_plan_row, withdraw_payment_plan_row,
  count_allocations_for_plan, find_installments_for_plan_snapshot,
}
use heritage_philippines_v.Payments.Repository.Payments.{insert_audit_log}
use heritage_philippines_v.Payments.Service.Actors.{
  assert_proposer_actor, assert_finance_actor, assert_withdrawer_actor, as_actor,
  assert_booking_open_for_payment, assert_amount_precision, rethrow_as,
}

pub record InstallmentInput : Type 0 where
  pub sequence_number : ℕ
  pub is_deposit : Bool
  pub amount : Text
  pub due_date : Text

pub record ProposePaymentPlanInput : Type 0 where
  pub booking_id : ℕ
  pub installments : List InstallmentInput

-- `new Set(numbers).size`
abbrev pub count_distinct : List InstallmentInput → ℕ
count_distinct [] = 0
count_distinct (i ∷ rest) =
    let n = count_distinct rest in
    if any (λ (j : InstallmentInput). j.sequence_number == i.sequence_number) rest then n else suc n

abbrev misplaced : List InstallmentInput → Bool
misplaced [] = false
misplaced (deposit ∷ rest) = not (deposit.sequence_number == 1)

-- Whether `installmentStructureViolation` returns a message.
unfoldable pub installment_structure_violation : List InstallmentInput → Bool
installment_structure_violation installments =
    let deposits = select (λ (i : InstallmentInput). i.is_deposit) installments in
    if not (count_distinct installments == length installments)
    then true
    else if ltb 1 (length deposits)
    then true
    else misplaced deposits

-- The rows to create; the installments take the identifiers from `n` on.
abbrev pub proposed_rows : World → ℕ → List InstallmentInput → List ProposedInstallment
proposed_rows w n [] = []
proposed_rows w n (i ∷ rest) =
    record {
      id = w.random_uuid n;
      sequence_number = i.sequence_number;
      is_deposit = i.is_deposit;
      amount = w.to_decimal i.amount;
      due_date = w.to_date i.due_date;
    }
    ∷ proposed_rows w (n + 1) rest

-- `for (const installment of input.installments) assertAmountPrecision(...)`
unfoldable pub assert_all_precision : List InstallmentInput → Text → PaymentTx (Unit {0})
unfolding assert_amount_precision
assert_all_precision [] currency_code = pure tt
assert_all_precision (i ∷ rest) currency_code =
    assert_amount_precision i.amount currency_code >> assert_all_precision rest currency_code

unfoldable pub propose_payment_plan_tx :
    World → PaymentActor → ProposePaymentPlanInput → PaymentTx PaymentPlan
propose_payment_plan_tx w actor input = do
  found ← gets (find_booking_financials_for_actor actor input.booking_id)
  booking ← or_throw found booking_forbidden
  assert_booking_open_for_payment (some booking.status)
  _ ← or_throw booking.total_amount payment_plan_conflict
  currency_code ← or_throw booking.currency_code payment_plan_conflict
  assert_all_precision input.installments currency_code
  existing ← gets (find_payment_plan_by_booking_id_for_actor actor input.booking_id)
  require (not (is_some existing)) payment_plan_conflict
  created ← create_payment_plan_with_installments (record {
    id = w.random_uuid 0;
    booking_id = input.booking_id;
    client_id = booking.client_id;
    proposed_by_staff_user_id = actor.id;
    installments = proposed_rows w 2 input.installments;
  })
  insert_audit_log (record {
    id = w.random_uuid 1;
    actor_id = actor.id;
    action = AuditAction.payment_plan_proposed;
    entity_type = AuditEntity.payment_plan;
    entity_id = created.id;
    before_state = none;
    after_state = some (AuditSnapshot.plan (sanitize_payment_plan_snapshot created));
  })
  pure created

abbrev lost_plan_race : Failure PaymentErrorCode → Bool
lost_plan_race e = is_unique_violation_on e "PaymentPlan" ("bookingId" ∷ [])

unfoldable pub propose_payment_plan :
    World
    → Schedule Store
    → AuthenticatedUser
    → ProposePaymentPlanInput
    → Action Store PaymentErrorCode PaymentPlan
propose_payment_plan w schedule actor input = as_actor (assert_proposer_actor actor) λ a s.
    if installment_structure_violation input.installments
    then (err (domain payment_plan_conflict), s)
    else with_handler (run_serializable_with_retry schedule (propose_payment_plan_tx w a input))
        (λ e t.
          if lost_plan_race e
          then (err (domain payment_plan_conflict), t)
          else rethrow_as payment_plan_conflict e t)
        s

abbrev pub is_approved : PaymentPlanStatus → Bool
is_approved PaymentPlanStatus.approved = true
is_approved PaymentPlanStatus.proposed = false
is_approved PaymentPlanStatus.withdrawn = false

unfoldable pub approve_payment_plan_tx : World → PaymentActor → ℕ → PaymentTx PaymentPlan
approve_payment_plan_tx w actor payment_plan_id = do
  found ← gets (find_payment_plan_with_booking_for_actor actor payment_plan_id)
  row ← or_throw found payment_plan_forbidden
  let plan = row.0
  let booking = row.1
  if is_approved plan.status then pure plan else (do
    assert_booking_open_for_payment (some booking.status)
    require (is_proposed plan.status) payment_plan_conflict
    total_amount ← or_throw booking.total_amount payment_plan_conflict
    installment_total ← gets (λ s. sum_installment_amounts s.installments plan.id)
    require (eqb_ℤ installment_total total_amount) payment_plan_conflict
    written ← approve_payment_plan_row plan.id actor.id w.now
    updated ← or_throw written payment_plan_conflict
    insert_audit_log (record {
      id = w.random_uuid 0;
      actor_id = actor.id;
      action = AuditAction.payment_plan_approved;
      entity_type = AuditEntity.payment_plan;
      entity_id = updated.id;
      before_state = some (AuditSnapshot.plan_before_approval plan.status);
      after_state = some (AuditSnapshot.plan (sanitize_payment_plan_snapshot updated));
    })
    pure updated)

unfoldable pub approve_payment_plan :
    World → Schedule Store → AuthenticatedUser → ℕ → Action Store PaymentErrorCode PaymentPlan
approve_payment_plan w schedule actor payment_plan_id = as_actor (assert_finance_actor actor) λ a.
    with_handler
      (run_serializable_with_retry schedule (approve_payment_plan_tx w a payment_plan_id))
      (rethrow_as payment_plan_conflict)

unfoldable pub withdraw_payment_plan_tx : World → PaymentActor → ℕ → Text → PaymentTx PaymentPlan
withdraw_payment_plan_tx w actor payment_plan_id reason = do
  found ← gets (find_payment_plan_with_booking_for_actor actor payment_plan_id)
  row ← or_throw found payment_plan_forbidden
  let plan = row.0
  if is_withdrawn plan.status then pure plan else (do
    require (is_proposed plan.status) payment_plan_conflict
    allocated ← gets (count_allocations_for_plan plan.id)
    require (not (ltb 0 allocated)) payment_plan_conflict
    installments ← gets (find_installments_for_plan_snapshot plan.id)
    written ← withdraw_payment_plan_row plan.id actor.id w.now reason
    updated ← or_throw written payment_plan_conflict
    insert_audit_log (record {
      id = w.random_uuid 0;
      actor_id = actor.id;
      action = AuditAction.payment_plan_withdrawn;
      entity_type = AuditEntity.payment_plan;
      entity_id = plan.id;
      before_state = some (sanitize_withdrawal_before w.to_fixed plan installments);
      after_state = some (AuditSnapshot.plan_after_withdrawal w.now actor.id reason);
    })
    pure updated)

unfoldable pub withdraw_payment_plan :
    World
    → Schedule Store
    → AuthenticatedUser
    → ℕ
    → Text
    → Action Store PaymentErrorCode PaymentPlan
withdraw_payment_plan w schedule actor payment_plan_id reason =
    as_actor (assert_withdrawer_actor actor) λ a.
      with_handler
        (run_serializable_with_retry schedule (withdraw_payment_plan_tx w a payment_plan_id reason))
        (rethrow_as payment_plan_conflict)
