-- ===== src/Assignments/Model.antt =====
-- apps/web/src/features/assignments/errors.ts and the kinds of targets in assignments/service.ts.
use heritage_philippines_v.Prelude.{ℕ, Bool, ◌==◌}
use heritage_philippines_v.Payments.Model.{Role}
pub mod Roles

pub data AssignmentErrorCode : Type 0 where
  role_not_permitted lead_not_found client_not_found booking_not_found : AssignmentErrorCode
  assignee_not_found assignee_inactive assignee_ineligible_role : AssignmentErrorCode
  reason_required assignment_conflict : AssignmentErrorCode

-- `AssignmentError.status`
unfoldable pub status_by_code : AssignmentErrorCode → ℕ
status_by_code role_not_permitted = 403
status_by_code lead_not_found = 404
status_by_code client_not_found = 404
status_by_code booking_not_found = 404
status_by_code assignee_not_found = 404
status_by_code assignee_inactive = 409
status_by_code assignee_ineligible_role = 409
status_by_code reason_required = 409
status_by_code assignment_conflict = 409

pub data TargetKind : Type 0 where
  lead client booking : TargetKind

abbrev pub role_index : Role → ℕ
role_index Role.system_administrator = 0
role_index Role.admin_manager = 1
role_index Role.travel_consultant = 2
role_index Role.finance_accounting = 3
role_index Role.visa_documentation = 4
role_index Role.client = 5

abbrev pub role_eq : Role → Role → Bool
role_eq a b = role_index a == role_index b
