-- ===== src/Assignments/Finance.antt =====
-- apps/web/src/features/assignments/service.ts: the finance assignee of a booking.
use heritage_philippines_v.Prelude.{
  ℕ, Bool, true, false, Option, none, some, [], ◌∷◌, ◌++◌, ◌&&◌, ◌==◌, find,
}
use heritage_philippines_v.Transaction.{
  Action, Schedule, pure, throw, require, or_else, gets, ◌>>=◌, ◌>>◌,
}
use heritage_philippines_v.Payments.Model.{Text, Role, AuthenticatedUser}
use heritage_philippines_v.Payments.Currencies.{trim}
use heritage_philippines_v.Crm.Model.{Assignment, AuditState, words, User}
use heritage_philippines_v.Crm.Store.{CrmStore, Runtime, insert_audit_row}
use heritage_philippines_v.Crm.Calls.{permit, run_once}
use heritage_philippines_v.Assignments.Model.{
  AssignmentErrorCode, role_not_permitted, booking_not_found, reason_required, TargetKind, role_eq,
}
use heritage_philippines_v.Assignments.Audit.{entity_type, sanitize_role_assignment_snapshot}
use heritage_philippines_v.Assignments.Repository.{
  has_booking, find_active_finance_assignment_for_booking, create_assignment, end_assignment_by_id,
}
use heritage_philippines_v.Assignments.Service.{
  AssignmentTx, run_assignment_transaction, assert_eligible, unchanged, end_active, reason_key,
  is_admin_manager,
}
use Prim.Native.String.{String}

unfoldable pub assert_eligible_finance_assignee : ℕ → AssignmentTx (Unit {0})
unfolding assert_eligible
assert_eligible_finance_assignee = assert_eligible Role.finance_accounting

abbrev pub or_reason_required : Text → AssignmentTx Text
or_reason_required [] = throw reason_required
or_reason_required (c ∷ t) = pure (c ∷ t)

unfoldable pub require_reason : Option Text → AssignmentTx Text
require_reason none = throw reason_required
require_reason (some reason) = or_reason_required (trim reason)

abbrev pub reason_asked : Option Text → Option Assignment → AssignmentTx (Option Text)
reason_asked reason none = pure none
reason_asked reason (some a) = require_reason reason >>= (λ t. pure (some t))

-- `active ? requireReason(reason, ...) : undefined`
unfoldable pub replacement_reason : Option Text → Option Assignment → AssignmentTx (Option Text)
replacement_reason = reason_asked

abbrev role_snapshot_before : Option Assignment → Option AuditState
role_snapshot_before none = none
role_snapshot_before (some a) = some (sanitize_role_assignment_snapshot a)

abbrev pub finance_action : Option Assignment → String
finance_action none = "BOOKING_FINANCE_ASSIGNMENT_CREATED"
finance_action (some a) = "BOOKING_FINANCE_ASSIGNMENT_REPLACED"

-- The row of `createBookingFinanceAssignment`.
abbrev pub finance_row : ℕ → ℕ → ℕ → ℕ → ℕ → Assignment
finance_row now id assigned_staff_id assigned_by_user_id booking_id = record {
  id = id;
  assigned_staff_id = assigned_staff_id;
  assigned_by_user_id = assigned_by_user_id;
  role = Role.finance_accounting;
  lead_id = none;
  client_id = none;
  booking_id = some booking_id;
  ended_at = none;
  created_at = now;
  updated_at = now;
}

unfoldable pub assign_finance_anew :
    Runtime → ℕ → ℕ → ℕ → Option Text → Option Assignment → AssignmentTx Assignment
assign_finance_anew w actor_id booking_id assigned_staff_id reason active = do
  assert_eligible_finance_assignee assigned_staff_id
  given ← replacement_reason reason active
  end_active w.now active
  created ←
      create_assignment (finance_row w.now (w.random_uuid 0) assigned_staff_id actor_id booking_id)
  insert_audit_row (record {
    actor_id = actor_id;
    action = finance_action active;
    entity_type = entity_type TargetKind.booking;
    entity_id = booking_id;
    before_state = role_snapshot_before active;
    after_state = some (sanitize_role_assignment_snapshot created ++ reason_key given);
  })
  pure created

unfoldable pub set_booking_finance_assignment_body :
    Runtime → ℕ → ℕ → ℕ → Option Text → AssignmentTx Assignment
unfolding assign_finance_anew
set_booking_finance_assignment_body w actor_id booking_id assigned_staff_id reason = do
  booking ← gets (has_booking booking_id)
  require booking booking_not_found
  active ← gets (find_active_finance_assignment_for_booking booking_id)
  or_else (unchanged assigned_staff_id active)
      (assign_finance_anew w actor_id booking_id assigned_staff_id reason active)

unfoldable pub set_booking_finance_assignment :
    Runtime
    → Schedule CrmStore
    → AuthenticatedUser
    → ℕ
    → ℕ
    → Option Text
    → Action CrmStore AssignmentErrorCode Assignment
unfolding permit run_assignment_transaction
set_booking_finance_assignment w schedule actor booking_id assigned_staff_id reason =
    permit (is_admin_manager actor) role_not_permitted (
      run_assignment_transaction schedule
        (set_booking_finance_assignment_body w actor.id booking_id assigned_staff_id reason))

unfoldable pub end_finance_given :
    Runtime → ℕ → ℕ → Text → Option Assignment → AssignmentTx (Option Assignment)
end_finance_given w actor_id booking_id reason none = pure none
end_finance_given w actor_id booking_id reason (some active) = do
  row ← end_assignment_by_id w.now active.id
  insert_audit_row (record {
    actor_id = actor_id;
    action = "BOOKING_FINANCE_ASSIGNMENT_ENDED";
    entity_type = entity_type TargetKind.booking;
    entity_id = booking_id;
    before_state = some (sanitize_role_assignment_snapshot active);
    after_state = some (sanitize_role_assignment_snapshot row ++ (("reason", words reason) ∷ []));
  })
  pure (some row)

unfoldable pub end_booking_finance_assignment_body :
    Runtime → ℕ → ℕ → Text → AssignmentTx (Option Assignment)
unfolding end_finance_given
end_booking_finance_assignment_body w actor_id booking_id reason = do
  booking ← gets (has_booking booking_id)
  require booking booking_not_found
  active ← gets (find_active_finance_assignment_for_booking booking_id)
  end_finance_given w actor_id booking_id reason active

abbrev pub is_filled : Text → Bool
is_filled [] = false
is_filled (c ∷ t) = true

unfoldable pub end_booking_finance_assignment :
    Runtime
    → Schedule CrmStore
    → AuthenticatedUser
    → ℕ
    → Text
    → Action CrmStore AssignmentErrorCode (Option Assignment)
unfolding permit run_assignment_transaction
end_booking_finance_assignment w schedule actor booking_id reason =
    permit (is_admin_manager actor) role_not_permitted (
      permit (is_filled (trim reason)) reason_required (
        run_assignment_transaction schedule
          (end_booking_finance_assignment_body w actor.id booking_id (trim reason))))

pub record BookingFinanceAssignmentView : Type 0 where
  pub id : ℕ
  pub booking_id : ℕ
  pub assigned_staff_id : ℕ
  pub assigned_by_user_id : ℕ
  pub assignee : User
  pub assignee_eligible : Bool

abbrev pub to_finance_assignment_view : ℕ → Assignment → User → BookingFinanceAssignmentView
to_finance_assignment_view booking_id a assignee = record {
  id = a.id;
  booking_id = booking_id;
  assigned_staff_id = a.assigned_staff_id;
  assigned_by_user_id = a.assigned_by_user_id;
  assignee = assignee;
  assignee_eligible = assignee.is_active && role_eq assignee.role Role.finance_accounting;
}

-- The row joined with its assignee; the foreign key of the row names a user.
abbrev view_row : Option ℕ → Assignment → Option User → Option BookingFinanceAssignmentView
view_row (some booking_id) a (some u) = some (to_finance_assignment_view booking_id a u)
view_row _ a _ = none

abbrev view_in : CrmStore → Option Assignment → Option BookingFinanceAssignmentView
view_in s none = none
view_in s (some a) = view_row a.booking_id a (find (λ u. u.id == a.assigned_staff_id) s.users)

unfoldable pub find_active_finance_assignment_view :
    ℕ → CrmStore → Option BookingFinanceAssignmentView
find_active_finance_assignment_view booking_id s =
    view_in s (find_active_finance_assignment_for_booking booking_id s)

unfoldable pub view_body : ℕ → AssignmentTx (Option BookingFinanceAssignmentView)
view_body booking_id = do
  booking ← gets (has_booking booking_id)
  require booking booking_not_found
  gets (find_active_finance_assignment_view booking_id)

unfoldable pub get_booking_finance_assignment :
    AuthenticatedUser
    → ℕ
    → Action CrmStore AssignmentErrorCode (Option BookingFinanceAssignmentView)
unfolding permit run_once view_body
get_booking_finance_assignment actor booking_id =
    permit (is_admin_manager actor) role_not_permitted (run_once (view_body booking_id))
